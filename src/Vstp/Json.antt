-- ===== src/Vstp/Json.antt =====
-- vstp.go, `setJsonVars`: the variables that an object's members stand for. Of encoding/json only the
-- result is used.
use vss.Prelude.{Bytes, List, ◌∷◌, ◌++◌, str_eq}
use vss.Prelude.Dict.{store}

-- What encoding/json makes of an object: its members, with the text that NewDynamicVar makes of a
-- value that is no object.
mutual
  pub data Json : Type 0 where
    value : Bytes → Json
    object : Members → Json

  pub data Members : Type 0 where
    no_members : Members
    member : Bytes → Json → Members → Members

-- extractNames: the entries of toSet.
unfoldable mutual
  pub extract_names : Bytes → Members → List (Bytes × Bytes) → List (Bytes × Bytes)
  extract_names parent no_members to_set = to_set
  extract_names parent (member k j rest) to_set =
      extract_names parent rest (extract_value (parent ++ b'.' ∷ k) j to_set)

  pub extract_value : Bytes → Json → List (Bytes × Bytes) → List (Bytes × Bytes)
  extract_value name (value v) to_set = store str_eq name v to_set
  extract_value name (object members) to_set = extract_names name members to_set
