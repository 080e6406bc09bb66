-- ===== src/Controller/ClientHelper/Listing.antt =====
-- Lists of texts given by their places, oldest first, and the removal of the first match.
use vss.Prelude.{
  ℕ, zero, suc, ◌+◌, ◌≤◌, ◌<◌, Bytes, List, [], ◌∷◌, ◌≡◌, refl, ap, ap₂, true, false, str_eq, ◌==◌,
  if◌then◌else◌, arith, Bool-cases, inl, inr, ◌++◌, ◌∙◌,
}

-- e(j), e(j+1), …, `left` of them.
unfoldable pub from_place : (ℕ → Bytes) → ℕ → ℕ → List Bytes
from_place e zero j = []
from_place e (suc left) j = e j ∷ from_place e left (suc j)

-- Without the first text that is `v`, if there is one.
unfoldable pub erase_text : Bytes → List Bytes → List Bytes
erase_text v [] = []
erase_text v (x ∷ xs) = let rest = erase_text v xs in if str_eq x v then xs else x ∷ rest

pub from_place_ext :
    {e d : ℕ → Bytes} (left j : ℕ)
    → ((i : ℕ) → j ≤ i → i < j + left → e i ≡ d i)
    → from_place e left j ≡ from_place d left j
unfolding from_place
from_place_ext zero j h = refl
from_place_ext (suc left) j h =
    ap₂ (λ x xs. x ∷ xs) (h j (omega arith) (omega arith))
      (from_place_ext left (suc j) λ i a b. h i (omega arith) (omega arith))

pub from_place_shift :
    (e d : ℕ → Bytes) (left j : ℕ)
    → ((i : ℕ) → j ≤ i → i < j + left → d i ≡ e (suc i))
    → from_place d left j ≡ from_place e left (suc j)
unfolding from_place
from_place_shift e d zero j h = refl
from_place_shift e d (suc left) j h =
    ap₂ (λ x xs. x ∷ xs) (h j (omega arith) (omega arith))
      (from_place_shift e d left (suc j) λ i a b. h i (omega arith) (omega arith))

-- One more at the end.
pub from_place_last :
    (e d : ℕ → Bytes) (left j : ℕ)
    → ((i : ℕ) → j ≤ i → i < j + left → d i ≡ e i)
    → from_place d (suc left) j ≡ from_place e left j ++ d (j + left) ∷ []
unfolding from_place
from_place_last e d zero j h = ap (λ k. d k ∷ []) (omega arith)
from_place_last e d (suc left) j h =
    ap₂ (λ x xs. x ∷ xs) (h j (omega arith) (omega arith))
      (from_place_last e d left (suc j) (λ i a b. h i (omega arith) (omega arith))
        ∙ ap (λ k. from_place e left (suc j) ++ d k ∷ []) (omega arith))

-- If `d` is `e` without the place `i`, the first one that holds `v`, then its list is the list of `e`
-- without the first `v`.
pub erase_text-from_place :
    (v : Bytes) (e d : ℕ → Bytes) (left j i : ℕ)
    → j ≤ i
    → i ≤ j + left
    → str_eq (e i) v ≡ true
    → ((k : ℕ) → j ≤ k → k < i → str_eq (e k) v ≡ false)
    → ((k : ℕ) → k < i → d k ≡ e k)
    → ((k : ℕ) → i ≤ k → k < j + left → d k ≡ e (suc k))
    → from_place d left j ≡ erase_text v (from_place e (suc left) j)
unfolding from_place erase_text
erase_text-from_place v e d zero j i a b here before low high =
    let p : i ≡ j = omega arith in rw (rw p at here)
erase_text-from_place v e d (suc left) j i a b here before low high = elim (Bool-cases (i == j)) [
  | inl q ↦
      let p : i ≡ j = ground arith in
      rw (rw p at here) (from_place_shift e d (suc left) j λ k x y. high k (omega arith) y)
  | inr q ↦
      let lt : j < i = ground arith in
      rw (before j (omega arith) lt) (
        ap₂ (λ x xs. x ∷ xs) (low j lt)
          (erase_text-from_place v e d left (suc j) i lt (omega arith) here
            (λ k x y. before k (omega arith) y) low (λ k x y. high k x (omega arith))))
]

-- A list that does not hold the text stays as it is.
pub erase_text_none :
    (v : Bytes) (e : ℕ → Bytes) (left j : ℕ)
    → ((k : ℕ) → j ≤ k → k < j + left → str_eq (e k) v ≡ false)
    → erase_text v (from_place e left j) ≡ from_place e left j
unfolding from_place erase_text
erase_text_none v e zero j h = refl
erase_text_none v e (suc left) j h = rw (h j (omega arith) (omega arith)) (
    ap (λ xs. e j ∷ xs) (erase_text_none v e left (suc j) λ k x y. h k (omega arith) (omega arith)))
