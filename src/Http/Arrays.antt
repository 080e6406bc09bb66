-- ===== src/Http/Arrays.antt =====
-- httpapi.go, `normalizeArrays`: a map whose keys are numbers becomes an array. A range over a Go map
-- meets its keys in an order that Go does not fix: it is the order of the fields here.
pub mod Bounds
pub mod InOrder
use mathlib.Core.Option
use vss.Prelude.{
  ℕ, zero, suc, codes, Bytes, ◌≡◌, Bool, true, false, Option, none, some, if◌then◌else◌, ◌==◌, ◌+◌,
  ◌>>=◌,
}
use vss.Prelude.Int.{ℤ, pos, negsuc}
use vss.DynamicVar.{atoi, int_or_zero}
use vss.Http.Nested.{
  Any, scalar, text, array, object, Elements, no_elements, element, Fields, no_fields, field,
}

-- err == nil && idx == previusNum+1, which is not negative.
unfoldable pub is_index : ℕ → Option ℤ → Bool
is_index expected none = false
is_index expected (some (pos idx)) = idx == expected
is_index expected (some (negsuc n)) = false

-- The loop that checks the keys: previusNum+1 at its end, which is maxIdx+1.
unfoldable pub numeric_keys : ℕ → Fields → Option ℕ
numeric_keys expected no_fields = some expected
numeric_keys expected (field k v fs) =
    let rest = numeric_keys (suc expected) fs in if is_index expected (atoi k) then rest else none

-- make([]any, n)
unfoldable pub make : ℕ → Elements
make zero = no_elements
make (suc n) = element (scalar (codes "null")) (make n)

-- arr[idx] = child; an index out of range is a panic.
unfoldable pub put_element : ℕ → Any → Elements → Option Elements
put_element idx child no_elements = none
put_element zero child (element x xs) = some (element child xs)
put_element (suc idx) child (element x xs) = Option.map (element x) (put_element idx child xs)

abbrev put_at : ℤ → Any → Elements → Option Elements
put_at (pos idx) child arr = put_element idx child arr
put_at (negsuc n) child arr = none

-- The loop that fills the array.
unfoldable pub fill : Fields → Elements → Option Elements
fill no_fields arr = some arr
fill (field k child fs) arr = do next ← put_at (int_or_zero (atoi k)) child arr; fill fs next

abbrev array_of : Option Elements → Option Any
array_of none = none
array_of (some arr) = some (array arr)

-- The two ranges over the map: `checked` and `filled` are its fields in the orders in which they are met.
abbrev array_or_map : Fields → Fields → Fields → Option ℕ → Option Any
array_or_map fs checked filled none = some (object fs)
array_or_map fs checked filled (some n) = array_of (fill filled (make n))

unfoldable pub to_array : Fields → Fields → Fields → Option Any
to_array no_fields checked filled = some (object no_fields)
to_array (field k v fs) checked filled =
    array_or_map (field k v fs) checked filled (numeric_keys 0 checked)

module _ (check_order fill_order : Fields → Fields) where
  -- normalizeArrays; `none` is a panic.
  unfoldable mutual
    pub normalize_arrays : Any → Option Any
    normalize_arrays (scalar s) = some (scalar s)
    normalize_arrays (text s) = some (text s)
    normalize_arrays (array xs) = array_of (normalize_elements xs)
    normalize_arrays (object m) = do
      t ← normalize_fields m
      to_array t (check_order t) (fill_order t)

    pub normalize_elements : Elements → Option Elements
    normalize_elements no_elements = some no_elements
    normalize_elements (element x xs) = do
      y ← normalize_arrays x
      ys ← normalize_elements xs
      some (element y ys)

    pub normalize_fields : Fields → Option Fields
    normalize_fields no_fields = some no_fields
    normalize_fields (field k v fs) = do
      w ← normalize_arrays v
      rest ← normalize_fields fs
      some (field k w rest)
