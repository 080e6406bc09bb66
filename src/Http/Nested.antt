-- ===== src/Http/Nested.antt =====
-- httpapi.go, `insertNested`: the tree of the variables that are read, by the words of their names.
-- `Any` is what encoding/json makes of a text, and what it is given to write; a scalar is a number, a
-- Boolean or null, as encoding/json writes it.
pub mod Reads
use vss.Prelude.{
  Bytes, codes, List, [], ◌∷◌, ◌≡◌, refl, Bool, true, false, Option, none, some, arith, str_eq,
  str_eq_iff, if◌then◌else◌, is_nil,
}

mutual
  pub data Any : Type 0 where
    scalar : Bytes → Any
    text : Bytes → Any
    array : Elements → Any
    object : Fields → Any

  pub data Elements : Type 0 where
    no_elements : Elements
    element : Any → Elements → Elements

  pub data Fields : Type 0 where
    no_fields : Fields
    field : Bytes → Any → Fields → Fields

-- node[key]
unfoldable pub get_field : Bytes → Fields → Option Any
get_field key no_fields = none
get_field key (field k v fs) = if str_eq k key then some v else get_field key fs

-- node[key] = v
unfoldable pub put_field : Bytes → Any → Fields → Fields
put_field key v no_fields = field key v no_fields
put_field key v (field k w fs) =
    if str_eq k key then field key v fs else field k w (put_field key v fs)

pub get_field-put_field :
    (key other : Bytes) (v : Any) (fs : Fields)
    → get_field other (put_field key v fs)
      ≡ (if str_eq key other then some v else get_field other fs)
unfolding get_field put_field
get_field-put_field key other v no_fields = refl
get_field-put_field key other v (field k w fs) = ground (
  arith,
  str_eq_iff key other,
  str_eq_iff k key,
  str_eq_iff k other,
  get_field-put_field key other v fs,
)

abbrev pub value_word : Bytes
value_word = codes "_value"

-- What stands at the last word afterwards.
abbrev pub with_value : Any → Option Any → Any
with_value value none = value
with_value value (some (object m)) = object (put_field value_word value m)
with_value value (some (scalar s)) = value
with_value value (some (text s)) = value
with_value value (some (array xs)) = value

-- The map that is gone down into: a value that is no map becomes the value of a new one.
abbrev pub map_of : Option Any → Fields
map_of none = no_fields
map_of (some (object m)) = m
map_of (some (scalar s)) = field value_word (scalar s) no_fields
map_of (some (text s)) = field value_word (text s) no_fields
map_of (some (array xs)) = field value_word (array xs) no_fields

-- insertNested; strings.Split gives one part at least.
unfoldable pub insert_nested : List Bytes → Any → Fields → Fields
insert_nested [] value node = node
insert_nested (last ∷ []) value node =
    if is_nil last then node else put_field last (with_value value (get_field last node)) node
insert_nested (key ∷ q ∷ parts) value node =
    let deeper = insert_nested (q ∷ parts) value (map_of (get_field key node)) in
    let here = insert_nested (q ∷ parts) value node in
    if is_nil key then here else put_field key (object deeper) node
