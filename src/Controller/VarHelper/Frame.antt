-- ===== src/Controller/VarHelper/Frame.antt =====
-- Reads of the observers' list after a write or a removal at one of VarHelper's keys.
use vss.Prelude.{
  ℕ, Bytes, codes, [], ◌∷◌, ◌≡◌, refl, Bool, true, false, ◌&&◌, str_eq, str_eq_sym, is_nil-append,
  ◌==◌, if◌then◌else◌, arith, ◌∙◌, Bool-cases, inl, inr,
}
use vss.DynamicVar.{format, is_digit}
use vss.DynamicVar.RoundTrip.{str_eq-format, word-ne-format}
use vss.Storage.Values.{path_eq, is_prefix, path_eq-append, is_prefix-append}
use vss.Storage.Interface.{IStorage}
use vss.Controller.VarHelper.{list_node_key, by_id_key}
use vss.Controller.VarHelper.Keys.{
  Field, count, client, metadata, field_key, field_path, key_path-field, key_path-node,
  key_path-by_id, by_id_path, list_path,
}

-- The fields that are one and the same.
abbrev pub same : Field → Field → Bool
same count count = true
same (client i) (client j) = i == j
same (metadata i) (metadata j) = i == j
same _ _ = false

-- The fields that stand below the node of place `i`.
abbrev pub within : ℕ → Field → Bool
within i count = false
within i (client j) = j == i
within i (metadata j) = j == i

path_eq-field : (f g : Field) → path_eq (field_path f) (field_path g) ≡ same f g
unfolding path_eq str_eq
path_eq-field count count = refl
path_eq-field count (client j) = ground arith
path_eq-field count (metadata j) = ground arith
path_eq-field (client i) count = ground arith
path_eq-field (client i) (client j) = ground (arith, str_eq-format i j)
path_eq-field (client i) (metadata j) = ground arith
path_eq-field (metadata i) count = ground arith
path_eq-field (metadata i) (client j) = ground arith
path_eq-field (metadata i) (metadata j) = ground (arith, str_eq-format i j)

count_apart : (j : ℕ) → (str_eq (codes "count") (format j) && true) ≡ false
count_apart j = ground (arith, word-ne-format b'c' (codes "ount") j (unfold is_digit in refl))

-- No field's key leads to another field's.
is_prefix-field : (f g : Field) → same f g ≡ false → is_prefix (field_path f) (field_path g) ≡ false
unfolding is_prefix str_eq
is_prefix-field count count h = cc
is_prefix-field count (client j) h = count_apart j
is_prefix-field count (metadata j) h = count_apart j
is_prefix-field (client i) count h = ground arith
is_prefix-field (client i) (client j) h = ground (arith, str_eq-format i j)
is_prefix-field (client i) (metadata j) h = ground arith
is_prefix-field (metadata i) count h = ground arith
is_prefix-field (metadata i) (client j) h = ground arith
is_prefix-field (metadata i) (metadata j) h = ground (arith, str_eq-format i j)

path_eq-by_id :
    (f : Field) (client_id meta : Bytes)
    → path_eq (field_path f) (by_id_path client_id meta) ≡ false
unfolding path_eq str_eq
path_eq-by_id count client_id meta = refl
path_eq-by_id (client i) client_id meta = refl
path_eq-by_id (metadata i) client_id meta = refl

is_prefix-by_id :
    (f : Field) (client_id meta : Bytes)
    → is_prefix (field_path f) (by_id_path client_id meta) ≡ false
unfolding is_prefix str_eq
is_prefix-by_id count client_id meta = refl
is_prefix-by_id (client i) client_id meta = refl
is_prefix-by_id (metadata i) client_id meta = refl

node_at_field :
    (i : ℕ) (f : Field)
    → (path_eq (field_path f) (list_path (format i ∷ [])) ≡ false)
      × (is_prefix (list_path (format i ∷ [])) (field_path f) ≡ within i f)
unfolding path_eq is_prefix str_eq
node_at_field i count = (count_apart i, rw (str_eq_sym (format i) (codes "count")) (count_apart i))
node_at_field i (client j) = (ground arith, ground (arith, str_eq-format i j))
node_at_field i (metadata j) = (ground arith, ground (arith, str_eq-format i j))

module _ {S : Type 0} (db : IStorage S) (name : Bytes) where
  open db use {set, get, delete_value}

  pub get-set_field :
      (f g : Field) (v default : Bytes) (s : S)
      → get (field_key name f) default (set (field_key name g) v s)
        ≡ (if same f g then v else get (field_key name f) default s)
  get-set_field f g v default s =
      db.get-set (field_key name f) (field_key name g) v default s
      ∙ rw
          (
            key_path-field name f,
            key_path-field name g,
            path_eq-append,
            is_prefix-append,
            path_eq-field,
          )
          (elim (Bool-cases (same f g)) [ inl e ↦ rw e | inr e ↦ rw (e, is_prefix-field f g e) ])

  pub get-set_by_id :
      (f : Field) (client_id meta v default : Bytes) (s : S)
      → get (field_key name f) default (set (by_id_key name client_id meta) v s)
        ≡ get (field_key name f) default s
  get-set_by_id f client_id meta v default s =
      db.get-set (field_key name f) (by_id_key name client_id meta) v default s
      ∙ rw
          (
            key_path-field name f,
            key_path-by_id name client_id meta,
            path_eq-append,
            is_prefix-append,
            path_eq-by_id,
            is_prefix-by_id,
          )
          refl

  pub get-delete_value_by_id :
      (f : Field) (client_id meta default : Bytes) (s : S)
      → get (field_key name f) default (delete_value (by_id_key name client_id meta) false s)
        ≡ get (field_key name f) default s
  get-delete_value_by_id f client_id meta default s =
      db.get-delete_value (field_key name f) (by_id_key name client_id meta) default false s
        (is_nil-append name _ _)
      ∙ rw
          (key_path-field name f, key_path-by_id name client_id meta, path_eq-append, path_eq-by_id)
          refl

  pub get-delete_value_node :
      (f : Field) (i : ℕ) (default : Bytes) (s : S)
      → get (field_key name f) default (delete_value (list_node_key name (format i)) true s)
        ≡ (if within i f then default else get (field_key name f) default s)
  get-delete_value_node f i default s =
      db.get-delete_value (field_key name f) (list_node_key name (format i)) default true s
        (is_nil-append name _ _)
      ∙ rw
          (
            key_path-field name f,
            key_path-node name i,
            path_eq-append,
            is_prefix-append,
            (node_at_field i f).0,
            (node_at_field i f).1,
          )
          refl
