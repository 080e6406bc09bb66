-- ===== src/Confs/Valid.antt =====
-- confs.go: a value that the validation of its item refuses does not get into the configuration.
use vss.Prelude.{
  Bytes, List, [], ◌∷◌, ◌≡◌, ◌≢◌, refl, sym, ◌∙◌, ap, false, Option, none, some, str_eq, str_eq_iff,
  str_eq_refl, eq_of_str_eq, subst, Bool-cases, Option-cases, inl, inr,
}
use vss.Prelude.Dict.{find, find-store}
use vss.Confs.{
  Confs, ConfItem, Source, ConfOption, new_conf_item, from_sources, create_config,
  apply_place_holders, validate_this_value,
}

-- An item that has no value map, and whose validation reads its value alone.
abbrev pub Checks : (Bytes → Option Bytes) → Bytes → ConfItem → Type 0
Checks error default_value c =
    (c.validate ≡ (λ i. error i.the_value))
    × (c.item.value_map ≡ [])
    × (c.item.default_value ≡ default_value)

-- An item whose value the validation accepts.
abbrev pub Fits : (Bytes → Option Bytes) → ConfItem → Type 0
Fits error c = (error c.item.the_value ≡ none) × (c.item.value_map ≡ [])

from_sources-Checks :
    (error : Bytes → Option Bytes) (d : Bytes) (sources : List Source)
    (place_holders : List (Bytes × Bytes)) (c : ConfItem)
    → Checks error d c
    → Checks error d (from_sources sources place_holders c)
unfolding from_sources
from_sources-Checks error d [] place_holders c h = h
from_sources-Checks error d (source ∷ sources) place_holders c h =
    elim (Option-cases (source.find_value c.item.possible_names)) [
      | inl e ↦ rw e (from_sources-Checks error d sources place_holders c h)
      | inr (found, e) ↦ rw e h
    ]

pub create_config-Fits :
    (error : Bytes → Option Bytes) (d name : Bytes) (options : List ConfOption) (confs : Confs)
    → find str_eq name confs.items ≡ none
    → Checks error d (new_conf_item name options)
    → error (apply_place_holders confs.place_holders d) ≡ none
    → Fits error (create_config name options confs).0
unfolding create_config validate_this_value
create_config-Fits error d name options confs absent h default_fits =
    let c = from_sources confs.sources confs.place_holders (new_conf_item name options) in
    let (v, m, e) =
      from_sources-Checks error d confs.sources confs.place_holders (new_conf_item name options)
        h in
    let says : c.validate c.item ≡ error c.item.the_value = ap (λ f. f c.item) v in
    elim (Option-cases (error c.item.the_value)) [
      | inl ok ↦ rw (absent, says, ok) (ok, m)
      | inr (why, bad) ↦ rw (absent, says, bad, e) (default_fits, m)
    ]

none-ne-some : {c : ConfItem} → none ≢ some c
none-ne-some h = cc

-- An item that is there stays as it is.
pub create_config_kept :
    (name k : Bytes) (options : List ConfOption) (confs : Confs) (c : ConfItem)
    → find str_eq k confs.items ≡ some c
    → find str_eq k (create_config name options confs).2.items ≡ some c
unfolding create_config
create_config_kept name k options confs c h = elim (Option-cases (find str_eq name confs.items)) [
  | inl e ↦ elim (Bool-cases (str_eq name k)) [
    | inl q ↦
        let gone : find str_eq k confs.items ≡ none =
          subst (λ n. find str_eq n confs.items ≡ none) (eq_of_str_eq name k q) e in
        absurd (none-ne-some (sym gone ∙ h))
    | inr q ↦ rw (e, find-store str_eq str_eq_iff, q) h
  ]
  | inr (d, e) ↦ rw e h
]

pub create_config_absent :
    (name k : Bytes) (options : List ConfOption) (confs : Confs)
    → str_eq name k ≡ false
    → find str_eq k confs.items ≡ none
    → find str_eq k (create_config name options confs).2.items ≡ none
unfolding create_config
create_config_absent name k options confs q h = elim (Option-cases (find str_eq name confs.items)) [
  | inl e ↦ rw (e, find-store str_eq str_eq_iff, q) h
  | inr (d, e) ↦ rw e h
]

pub create_config_found :
    (name : Bytes) (options : List ConfOption) (confs : Confs)
    → find str_eq name confs.items ≡ none
    → find str_eq name (create_config name options confs).2.items
      ≡ some (create_config name options confs).0
unfolding create_config
create_config_found name options confs e = rw (e, find-store str_eq str_eq_iff, str_eq_refl) refl

pub create_config-place_holders :
    (name : Bytes) (options : List ConfOption) (confs : Confs)
    → (create_config name options confs).2.place_holders ≡ confs.place_holders
unfolding create_config
create_config-place_holders name options confs =
    elim (Option-cases (find str_eq name confs.items)) [
      | inl e ↦ rw e refl
      | inr (d, e) ↦ rw e refl
    ]
