-- ===== src/Http/Arrays/InOrder.antt =====
-- httpapi.go, `normalizeArrays`: the array that is made when both ranges meet the keys in one order.
use vss.Prelude.{
  ℕ, suc, ◌+◌, Bytes, ◌≡◌, refl, ap, Bool, true, ◌&&◌, none, some, arith, if◌then◌else◌, Bool-cases,
  inl, inr,
}
use vss.DynamicVar.{atoi}
use vss.Http.Nested.{Any, array, object, Elements, no_elements, element, Fields, no_fields, field}
use vss.Http.Arrays.{is_index, numeric_keys, make, put_element, fill, to_array}
use vss.Http.Arrays.Bounds.{size, index_cases}

unfoldable pub values : Fields → Elements
values no_fields = no_elements
values (field k v fs) = element v (values fs)

-- The keys are n, n + 1, and so on.
unfoldable pub counts_from : ℕ → Fields → Bool
counts_from n no_fields = true
counts_from n (field k v fs) = is_index n (atoi k) && counts_from (suc n) fs

unfoldable how_many : Fields → ℕ
how_many no_fields = 0
how_many (field k v fs) = suc (how_many fs)

unfoldable joined : Elements → Elements → Elements
joined no_elements ys = ys
joined (element x xs) ys = element x (joined xs ys)

numeric_keys-how_many :
    (n : ℕ) (fs : Fields)
    → numeric_keys n fs ≡ (if counts_from n fs then some (how_many fs + n) else none)
unfolding numeric_keys counts_from how_many
numeric_keys-how_many n no_fields = ground arith
numeric_keys-how_many n (field k v fs) = rw (numeric_keys-how_many (suc n) fs) (ground arith)

put_element-joined :
    (c x : Any) (before after : Elements)
    → put_element (size before) c (joined before (element x after))
      ≡ some (joined before (element c after))
unfolding put_element joined size
put_element-joined c x no_elements after = refl
put_element-joined c x (element y before) after = rw (put_element-joined c x before after) refl

joined-element :
    (c : Any) (before after : Elements)
    → joined before (element c after) ≡ joined (joined before (element c no_elements)) after
unfolding joined
joined-element c no_elements after = refl
joined-element c (element y before) after = ap (element y) (joined-element c before after)

size-joined :
    (c : Any) (before : Elements) → size (joined before (element c no_elements)) ≡ suc (size before)
unfolding joined size
size-joined c no_elements = refl
size-joined c (element y before) = ap suc (size-joined c before)

joined_nothing : (xs : Elements) → joined xs no_elements ≡ xs
unfolding joined
joined_nothing no_elements = refl
joined_nothing (element x xs) = ap (element x) (joined_nothing xs)

fill-joined :
    (fs : Fields) (before : Elements)
    → counts_from (size before) fs ≡ true
    → fill fs (joined before (make (how_many fs))) ≡ some (joined before (values fs))
unfolding fill counts_from how_many make values
fill-joined no_fields before h = refl
fill-joined (field k v fs) before h =
    let here = index_cases (size before) (atoi k) (ground arith) in
    let next = joined before (element v no_elements) in
    let later : counts_from (size next) fs ≡ true = rw size-joined (ground arith) in
    rw
      (
        here,
        put_element-joined v _ before (make (how_many fs)),
        joined-element v before (make (how_many fs)),
        fill-joined fs next later,
        joined-element v before (values fs),
      )
      refl

-- When both ranges meet the keys in one order, a map that is not empty becomes the array of its values in
-- that order if its keys are the numbers from 0 on, and else stays a map.
pub to_array-counts_from :
    (k : Bytes) (v : Any) (fs : Fields)
    → to_array (field k v fs) (field k v fs) (field k v fs)
      ≡ some (
          if counts_from 0 (field k v fs)
          then array (values (field k v fs))
          else object (field k v fs))
unfolding to_array size joined
to_array-counts_from k v fs = elim (Bool-cases (counts_from 0 (field k v fs))) [
  | inl e ↦
      let filled = fill-joined (field k v fs) no_elements e in
      let none_added : how_many (field k v fs) + 0 ≡ how_many (field k v fs) = omega arith in
      rw (numeric_keys-how_many 0 (field k v fs), e, none_added, filled) refl
  | inr e ↦ rw (numeric_keys-how_many 0 (field k v fs), e) refl
]
