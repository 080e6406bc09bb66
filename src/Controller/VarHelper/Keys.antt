-- ===== src/Controller/VarHelper/Keys.antt =====
-- The keys that VarHelper writes name paths that do not meet: what a write or a removal at one of
-- them does to a read at another.
use vss.Prelude.{ℕ, Bytes, codes, List, [], ◌∷◌, ◌++◌, ◌≡◌, ◌≢◌, refl, ap, ◌∙◌, false}
use vss.Text.{contains, split, split_lacking}
use vss.DynamicVar.{format, is_digit}
use vss.DynamicVar.RoundTrip.{contains-format, format-ne-nil}
use vss.Storage.Keys.{dot, key_path, key_path-append, key_path_lacking}
use vss.Controller.VarHelper.{
  list_count_key, list_node_key, list_client_key, list_metadata_key, by_id_key,
}

-- The keys of the observers' list.
pub data Field : Type 0 where
  count : Field
  client : ℕ → Field
  metadata : ℕ → Field

abbrev pub field_key : Bytes → Field → Bytes
field_key name count = list_count_key name
field_key name (client i) = list_client_key name (format i)
field_key name (metadata i) = list_metadata_key name (format i)

abbrev pub list_path : List Bytes → List Bytes
list_path p = codes "_observers" ∷ codes "list" ∷ p

abbrev pub field_path : Field → List Bytes
field_path count = list_path (codes "count" ∷ [])
field_path (client i) = list_path (format i ∷ codes "clientId" ∷ [])
field_path (metadata i) = list_path (format i ∷ codes "metadata" ∷ [])

append-ne-nil : (s t : Bytes) → t ≢ [] → s ++ t ≢ []
append-ne-nil [] t h = h
append-ne-nil (c ∷ s) t h = λ e. cc

key_path-list :
    (name t : Bytes)
    → t ≢ []
    → key_path (name ++ (codes "._observers.list." ++ t)) ≡ split dot name ++ list_path (key_path t)
key_path-list name t h =
    key_path-append name (codes "_observers.list." ++ t) (λ e. cc)
    ∙ ap (λ p. split dot name ++ p)
        (key_path-append (codes "_observers.list") t h ∙ (unfold split in refl))

key_path-place :
    (i : ℕ) (t : Bytes)
    → t ≢ []
    → contains t dot ≡ false
    → key_path (format i ++ dot ∷ t) ≡ format i ∷ t ∷ []
key_path-place i t h k =
    key_path-append (format i) t h
    ∙ rw
        (
          split_lacking dot (format i) (contains-format i dot (unfold is_digit in refl)),
          key_path_lacking t k,
        )
        refl

pub key_path-field :
    (name : Bytes) (f : Field) → key_path (field_key name f) ≡ split dot name ++ field_path f
key_path-field name count =
    key_path-list name (codes "count") (λ e. cc) ∙ (unfold key_path split in refl)
key_path-field name (client i) =
    key_path-list name _ (append-ne-nil (format i) _ (λ e. cc))
    ∙ ap (λ p. split dot name ++ list_path p)
        (key_path-place i (codes "clientId") (λ e. cc) (unfold contains in refl))
key_path-field name (metadata i) =
    key_path-list name _ (append-ne-nil (format i) _ (λ e. cc))
    ∙ ap (λ p. split dot name ++ list_path p)
        (key_path-place i (codes "metadata") (λ e. cc) (unfold contains in refl))

pub key_path-node :
    (name : Bytes) (i : ℕ)
    → key_path (list_node_key name (format i)) ≡ split dot name ++ list_path (format i ∷ [])
key_path-node name i =
    key_path-list name _ (format-ne-nil i)
    ∙ ap (λ p. split dot name ++ list_path p)
        (key_path_lacking (format i) (contains-format i dot (unfold is_digit in refl)))

abbrev pub by_id_path : Bytes → Bytes → List Bytes
by_id_path client_id meta =
    codes "_observers" ∷ codes "byId" ∷ key_path (client_id ++ (codes ".byMetadata." ++ meta))

pub key_path-by_id :
    (name client_id meta : Bytes)
    → key_path (by_id_key name client_id meta) ≡ split dot name ++ by_id_path client_id meta
key_path-by_id name client_id meta =
    key_path-append name (codes "_observers.byId." ++ (client_id ++ (codes ".byMetadata." ++ meta)))
      (λ e. cc)
    ∙ ap (λ p. split dot name ++ p)
        (key_path-append (codes "_observers.byId") _ (append-ne-nil client_id _ (λ e. cc))
          ∙ (unfold split in refl))
