-- ===== src/Confs/Resolve.antt =====
-- confs.go, CreateConfig: which source an item's value is from.
use vss.Prelude.{
  Bytes, List, [], ◌∷◌, ◌++◌, ◌≡◌, refl, Option, none, some, All, str_eq, str_eq_iff, str_eq_refl,
}
use vss.Prelude.Dict.{find, store, find-store}
use vss.Confs.{
  Source, ConfItem, Confs, ConfOption, new_conf_item, from_sources, value_of_source, unless_invalid,
  validate_this_value, create_config,
}

-- The item with the value that a source found, before placeholders are put in.
abbrev pub taken_from : List (Bytes × Bytes) → Source → Bytes × Bytes → ConfItem → ConfItem
taken_from place_holders source found c = value_of_source place_holders source (some found) c c

from_sources-append :
    (pre post : List Source) (source : Source) (place_holders : List (Bytes × Bytes)) (c : ConfItem)
    (found : Bytes × Bytes)
    → All (λ s. s.find_value c.item.possible_names ≡ none) pre
    → source.find_value c.item.possible_names ≡ some found
    → from_sources (pre ++ source ∷ post) place_holders c ≡ taken_from place_holders source found c
unfolding from_sources
from_sources-append [] post source place_holders c found h e = rw e refl
from_sources-append (s ∷ pre) post source place_holders c found (h, hs) e =
    rw h (from_sources-append pre post source place_holders c found hs e)

-- A new item takes its value from the first source that has one of its names. If the validation
-- refuses the item with that value, the error is returned and the value is the default one. Whoever
-- asks for the item again, with whatever options, gets the same item and no error.
pub create_config_first :
    (pre post : List Source) (source : Source) (name : Bytes) (options more : List ConfOption)
    (items : List (Bytes × ConfItem)) (place_holders : List (Bytes × Bytes)) (found : Bytes × Bytes)
    → find str_eq name items ≡ none
    → All (λ s. s.find_value (new_conf_item name options).item.possible_names ≡ none) pre
    → source.find_value (new_conf_item name options).item.possible_names ≡ some found
    → (made : ConfItem) × (after : Confs) × (error : Option Bytes) × (create_config name options
          (record { items = items; sources = pre ++ source ∷ post; place_holders = place_holders })
        ≡ (made, error, after))
      × (create_config name more after ≡ (made, none, after))
      × (error
          ≡ validate_this_value []
              (taken_from place_holders source found (new_conf_item name options)))
      × (made
          ≡ unless_invalid error place_holders
              (taken_from place_holders source found (new_conf_item name options)))
unfolding create_config validate_this_value
create_config_first pre post source name options more items place_holders found a h e =
    let c = new_conf_item name options in
    let taken = taken_from place_holders source found c in
    let error = taken.validate taken.item in
    let made = unless_invalid error place_holders taken in
    (
      made,
      record {
        items = store str_eq name made items;
        sources = pre ++ source ∷ post;
        place_holders = place_holders;
      },
      error,
      rw (a, from_sources-append pre post source place_holders c found h e) refl,
      rw (find-store str_eq str_eq_iff name name made items, str_eq_refl) refl,
      refl,
      refl,
    )
