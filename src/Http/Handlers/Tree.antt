-- ===== src/Http/Handlers/Tree.antt =====
-- httpapi.go, `handleGetByName`: the tree of an answer in JSON.
use vss.Prelude.{
  Bytes, List, [], ◌∷◌, ◌≡◌, ◌≢◌, refl, ap, ◌∙◌, Bool, true, Option, some, if◌then◌else◌, All,
}
use vss.Text.{split, split-ne-nil}
use vss.Storage.Values.{path_eq}
use vss.Http.Nested.{Any, Fields, insert_nested}
use vss.Http.Nested.Reads.{read, IsWord, IsLeaf, read-insert_nested}
use vss.Http.Requests.{Go, json_name}
use vss.Http.Exports.{parse_dynamic_var, insert_values}

read-insert_path :
    (p q : List Bytes) (v : Any) (fs : Fields)
    → p ≢ []
    → q ≢ []
    → IsLeaf v
    → All IsWord p
    → All IsWord q
    → read q (insert_nested p v fs) ≡ (if path_eq p q then some v else read q fs)
read-insert_path [] q v fs np nq l hp hq = absurd (np refl)
read-insert_path (w ∷ p) [] v fs np nq l hp hq = absurd (nq refl)
read-insert_path (w ∷ p) (x ∷ q) v fs np nq l (hw, hp) (hx, hq) =
    read-insert_nested p q v fs w x l hw hx hp hq

module _ (go : Go) where
  -- The value that was last written at a path.
  unfoldable pub written_at : List Bytes → List (Bytes × Bytes) → Option Any → Option Any
  written_at q [] old = old
  written_at q ((name, val) ∷ vals) old =
      written_at q vals
        (if path_eq (split b'.' name) q then some (parse_dynamic_var go val) else old)

  -- A name of words, and a value that is not read as a JSON object.
  abbrev pub IsPlainVar : Bytes × Bytes → Type 0
  IsPlainVar (name, val) = All IsWord (split b'.' name) × IsLeaf (parse_dynamic_var go val)

  -- With the whole names, what stands in the tree of a JSON answer at the path of a name is the value
  -- that was last given for that path, or what stood there before. The names are made of words, none of
  -- them empty or `_value`, and no value is read as a JSON object.
  pub read-insert_values :
      (name : Bytes) (several : Bool) (vals : List (Bytes × Bytes)) (root : Fields) (q : List Bytes)
      → q ≢ []
      → All IsWord q
      → All IsPlainVar vals
      → read q (insert_values go true name several vals root) ≡ written_at q vals (read q root)
  unfolding insert_values written_at json_name
  read-insert_values name several [] root q nq hq h = refl
  read-insert_values name several ((full_name, val) ∷ vals) root q nq hq ((hn, hv), hs) =
      let next = insert_nested (split b'.' full_name) (parse_dynamic_var go val) root in
      read-insert_values name several vals next q nq hq hs
      ∙ ap (written_at q vals) (
          read-insert_path (split b'.' full_name) q (parse_dynamic_var go val) root
            (split-ne-nil b'.' full_name) nq hv hn hq)
