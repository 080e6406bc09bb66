-- ===== src/Http/Arrays/Bounds.antt =====
-- httpapi.go, `normalizeArrays`: each index is within the array.
use vss.Prelude.{
  ap, ◌||◌, ◌≤◌, ℕ, zero, suc, ◌<◌, Bytes, ◌≡◌, refl, Bool, true, false, ◌&&◌, Option, none, some,
  arith, str_eq, eq_of_str_eq, Bool-cases, inl, inr, ◌∙◌,
}
use vss.Prelude.Int.{ℤ, pos, negsuc}
use vss.DynamicVar.{atoi}
use vss.Http.Nested.{
  Any, scalar, text, array, object, Elements, no_elements, element, Fields, no_fields, field,
}
use vss.Http.Arrays.{
  is_index, numeric_keys, make, put_element, fill, array_or_map, to_array, normalize_arrays,
  normalize_elements, normalize_fields,
}

unfoldable pub has_key : Bytes → Fields → Bool
has_key key no_fields = false
has_key key (field k v fs) = str_eq k key || has_key key fs

-- Each key of the first is one of the second.
unfoldable pub keys_within : Fields → Fields → Bool
keys_within no_fields gs = true
keys_within (field k v fs) gs = has_key k gs && keys_within fs gs

unfoldable pub size : Elements → ℕ
size no_elements = 0
size (element x xs) = suc (size xs)

-- No panic.
abbrev pub IsMade : {A : Type 0} → Option A → Type 0
IsMade {A} o = (a : A) × (o ≡ some a)

size-make : (n : ℕ) → size (make n) ≡ n
unfolding size make
size-make zero = refl
size-make (suc n) = ap suc (size-make n)

pub index_cases : (e : ℕ) (o : Option ℤ) → is_index e o ≡ true → o ≡ some (pos e)
unfolding is_index
index_cases e none h = absurd (ground arith)
index_cases e (some (pos n)) h = ground arith
index_cases e (some (negsuc n)) h = absurd (ground arith)

numeric_keys_le : (e n : ℕ) (fs : Fields) → numeric_keys e fs ≡ some n → e ≤ n
unfolding numeric_keys
numeric_keys_le e n no_fields h = ground arith
numeric_keys_le e n (field k v fs) h = ground (arith, numeric_keys_le (suc e) n fs)

-- A key that the check has met is an index below the one it ends with.
key-index :
    (e n : ℕ) (key : Bytes) (fs : Fields)
    → numeric_keys e fs ≡ some n
    → has_key key fs ≡ true
    → (i : ℕ) × (atoi key ≡ some (pos i)) × (i < n)
unfolding numeric_keys has_key
key-index e n key no_fields h m = absurd (ground arith)
key-index e n key (field k v fs) h m = elim (Bool-cases (is_index e (atoi k))) [
  | inr no_index ↦ absurd (ground arith)
  | inl index ↦ elim (Bool-cases (str_eq k key)) [
    | inl same ↦
        let here = index_cases e (atoi k) index in
        let bound = numeric_keys_le (suc e) n fs (rw index at h) in
        (e, rw (← eq_of_str_eq k key same) here, omega arith)
    | inr other ↦ key-index (suc e) n key fs (rw index at h) (rw other at m)
  ]
]

put_element_within :
    (i : ℕ) (c : Any) (arr : Elements)
    → i < size arr
    → (out : Elements) × (put_element i c arr ≡ some out) × (size out ≡ size arr)
unfolding put_element size
put_element_within i c no_elements h = absurd (omega arith)
put_element_within zero c (element x xs) h = (element c xs, refl, refl)
put_element_within (suc i) c (element x xs) h =
    let (out, e, l) = put_element_within i c xs (omega arith) in
    (element x out, rw e refl, ap suc l)

fill_within :
    (n : ℕ) (filled checked : Fields) (arr : Elements)
    → numeric_keys 0 checked ≡ some n
    → keys_within filled checked ≡ true
    → size arr ≡ n
    → (out : Elements) × (fill filled arr ≡ some out) × (size out ≡ n)
unfolding fill keys_within
fill_within n no_fields checked arr h k l = (arr, refl, l)
fill_within n (field key c fs) checked arr h k l =
    let (i, e, below) = key-index 0 n key checked h (ground arith) in
    let (next, placed, same) = put_element_within i c arr (rw l below) in
    let (out, filled, length) = fill_within n fs checked next h (ground arith) (same ∙ l) in
    (out, rw (e, placed, filled) refl, length)

array_or_map-IsMade :
    (fs checked filled : Fields) (o : Option ℕ)
    → numeric_keys 0 checked ≡ o
    → keys_within filled checked ≡ true
    → IsMade (array_or_map fs checked filled o)
array_or_map-IsMade fs checked filled none h k = (object fs, refl)
array_or_map-IsMade fs checked filled (some n) h k =
    let (out, e, l) = fill_within n filled checked (make n) h k (size-make n) in
    (array out, rw e refl)

to_array-IsMade :
    (fs checked filled : Fields)
    → keys_within filled checked ≡ true
    → IsMade (to_array fs checked filled)
unfolding to_array
to_array-IsMade no_fields checked filled k = (object no_fields, refl)
to_array-IsMade (field key v fs) checked filled k =
    array_or_map-IsMade (field key v fs) checked filled (numeric_keys 0 checked) refl k

module _ (check_order fill_order : Fields → Fields) where
  module _ (same_keys : (m : Fields) → keys_within (fill_order m) (check_order m) ≡ true) where
    mutual
      unfolding normalize_arrays

      value-IsMade : (v : Any) → IsMade (normalize_arrays check_order fill_order v)
      value-IsMade (scalar s) = (scalar s, refl)
      value-IsMade (text s) = (text s, refl)
      value-IsMade (array xs) = let (ys, e) = elements-IsMade xs in (array ys, rw e refl)
      value-IsMade (object m) =
          let (t, e) = fields-IsMade m in
          let (out, made) = to_array-IsMade t (check_order t) (fill_order t) (same_keys t) in
          (out, rw e made)

      elements-IsMade : (xs : Elements) → IsMade (normalize_elements check_order fill_order xs)
      elements-IsMade no_elements = (no_elements, refl)
      elements-IsMade (element x xs) =
          let (y, e) = value-IsMade x in
          let (ys, es) = elements-IsMade xs in (element y ys, rw (e, es) refl)

      fields-IsMade : (fs : Fields) → IsMade (normalize_fields check_order fill_order fs)
      fields-IsMade no_fields = (no_fields, refl)
      fields-IsMade (field k v fs) =
          let (w, e) = value-IsMade v in
          let (rest, es) = fields-IsMade fs in (field k w rest, rw (e, es) refl)

-- Whatever the orders in which the ranges meet the keys of a map, when the one that fills an array meets
-- only keys that the one before it met, no index is out of range: normalizeArrays ends with a value.
pub normalize_arrays-IsMade :
    (check_order fill_order : Fields → Fields)
    → ((m : Fields) → keys_within (fill_order m) (check_order m) ≡ true)
    → (v : Any) → IsMade (normalize_arrays check_order fill_order v)
normalize_arrays-IsMade check_order fill_order same_keys v =
    value-IsMade check_order fill_order same_keys v
