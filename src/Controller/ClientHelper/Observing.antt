-- ===== src/Controller/ClientHelper/Observing.antt =====
-- The list of what a client observes, as a list: what registering and unregistering do to it.
use vss.Prelude.{
  ℕ, Bytes, codes, List, [], ◌∷◌, ◌++◌, ◌≡◌, refl, ap, ◌∙◌, Bool, true, false, str_eq, str_eq_sym,
  if◌then◌else◌, arith, is_nil, ◌==◌,
}
use vss.Prelude.Int.{ℤ}
use vss.Text.{split}
use vss.DynamicVar.{itoa, format, is_digit}
use vss.DynamicVar.RoundTrip.{str_eq-format, word-ne-format, contains-format, format-ne-nil}
use vss.Storage.Keys.{dot, key_path, key_path-append, key_path_lacking}
use vss.Storage.Values.{path_eq, is_prefix, path_eq-append, is_prefix-append}
use vss.Storage.Interface.{IStorage}
use vss.Controller.ClientHelper.{
  client_base, observing_count_key, observing_place_key, live_time_key, update_live_time,
}

-- The keys of the list.
pub data Field : Type 0 where
  count : Field
  place : ℕ → Field

abbrev pub field_key : Bytes → Field → Bytes
field_key client_id count = observing_count_key client_id
field_key client_id (place i) = observing_place_key client_id (format i)

abbrev field_path : Field → List Bytes
field_path count = codes "observing" ∷ codes "count" ∷ []
field_path (place i) = codes "observing" ∷ format i ∷ []

abbrev pub same : Field → Field → Bool
same count count = true
same (place i) (place j) = i == j
same _ _ = false

key_path-field :
    (client_id : Bytes) (f : Field)
    → key_path (field_key client_id f) ≡ split dot (client_base client_id) ++ field_path f
key_path-field client_id count =
    key_path-append (client_base client_id) (codes "observing.count") (λ e. cc)
    ∙ ap (λ p. split dot (client_base client_id) ++ p) (unfold key_path split in refl)
key_path-field client_id (place i) =
    key_path-append (client_base client_id) (codes "observing." ++ format i) (λ e. cc)
    ∙ ap (λ p. split dot (client_base client_id) ++ p)
        (key_path-append (codes "observing") (format i) (format-ne-nil i)
          ∙ rw (key_path_lacking (format i) (contains-format i dot (unfold is_digit in refl)))
              (unfold split in refl))

key_path-live_time :
    (client_id : Bytes)
    → key_path (live_time_key client_id)
      ≡ split dot (client_base client_id) ++ codes "lastLiveTime" ∷ []
key_path-live_time client_id =
    key_path-append (client_base client_id) (codes "lastLiveTime") (λ e. cc)
    ∙ ap (λ p. split dot (client_base client_id) ++ p) (unfold key_path split in refl)

count_apart : (j : ℕ) → str_eq (codes "count") (format j) ≡ false
count_apart j = word-ne-format b'c' (codes "ount") j (unfold is_digit in refl)

path_eq-field : (f g : Field) → path_eq (field_path f) (field_path g) ≡ same f g
unfolding path_eq str_eq
path_eq-field count count = refl
path_eq-field count (place j) = ground (arith, count_apart j)
path_eq-field (place i) count = ground (arith, str_eq_sym (format i) (codes "count"), count_apart i)
path_eq-field (place i) (place j) = ground (arith, str_eq-format i j)

is_prefix-field : (f g : Field) → is_prefix (field_path f) (field_path g) ≡ same f g
unfolding is_prefix str_eq
is_prefix-field count count = refl
is_prefix-field count (place j) = ground (arith, count_apart j)
is_prefix-field (place i) count =
    ground (arith, str_eq_sym (format i) (codes "count"), count_apart i)
is_prefix-field (place i) (place j) = ground (arith, str_eq-format i j)

live_time_apart :
    (f : Field)
    → (path_eq (field_path f) (codes "lastLiveTime" ∷ []) ≡ false)
      × (is_prefix (field_path f) (codes "lastLiveTime" ∷ []) ≡ false)
unfolding path_eq is_prefix str_eq
live_time_apart count = (refl, refl)
live_time_apart (place i) = (refl, refl)

module _ {S : Type 0} (db : IStorage S) (client_id : Bytes) where
  open db use {set, get, delete_value}

  pub get-set_field :
      (f g : Field) (v default : Bytes) (s : S)
      → get (field_key client_id f) default (set (field_key client_id g) v s)
        ≡ (if same f g then v else get (field_key client_id f) default s)
  get-set_field f g v default s =
      db.get-set (field_key client_id f) (field_key client_id g) v default s
      ∙ rw
          (
            key_path-field client_id f,
            key_path-field client_id g,
            path_eq-append,
            is_prefix-append,
            path_eq-field,
            is_prefix-field,
          )
          (ground arith)

  pub get-update_live_time :
      (f : Field) (default : Bytes) (now : ℤ) (s : S)
      → get (field_key client_id f) default (update_live_time db client_id now s)
        ≡ get (field_key client_id f) default s
  unfolding update_live_time
  get-update_live_time f default now s =
      db.get-set (field_key client_id f) (live_time_key client_id) (itoa now) default s
      ∙ rw (
        key_path-field client_id f,
        key_path-live_time client_id,
        path_eq-append,
        is_prefix-append,
        (live_time_apart f).0,
        (live_time_apart f).1,
      )

  -- A read at another place, or of the count, does not see the removal of a place.
  pub get-delete_value_place :
      (f : Field) (i : ℕ) (default : Bytes) (s : S)
      → same f (place i) ≡ false
      → get
          (field_key client_id f)
          default
          (delete_value (observing_place_key client_id (format i)) false s)
        ≡ get (field_key client_id f) default s
  get-delete_value_place f i default s h =
      db.get-delete_value (field_key client_id f) (field_key client_id (place i)) default false s
        (is_nil_place i)
      ∙ rw (
        key_path-field client_id f,
        key_path-field client_id (place i),
        path_eq-append,
        path_eq-field,
        h,
      )
    where
      is_nil_place : (i : ℕ) → is_nil (field_key client_id (place i)) ≡ false
      is_nil_place i = refl
