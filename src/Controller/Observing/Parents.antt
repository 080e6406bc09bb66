-- ===== src/Controller/Observing/Parents.antt =====
-- The parents that notifyParentGenericObservers visits.
use vss.Prelude.{
  ℕ, zero, suc, ◌<◌, ◌≤◌, Bytes, List, [], ◌∷◌, ◌++◌, ◌≡◌, ◌≢◌, refl, sym, ap, ◌∙◌, false, ◌==◌,
  map, length, Option, none, some, Bool-cases, Option-cases, inl, inr, arith,
}
use vss.Text.{split, cut_last, contains, split-append, split_lacking, split-ne-nil}
use vss.Controller.Observing.{parent_of, parents_from, parents}

some-ne-none : {p : Bytes × Bytes} → some p ≢ none
some-ne-none h = cc

some-pair :
    {a b x y : Bytes}
    → ◌≡◌ {A = Option (Bytes × Bytes)} (some (a, b)) (some (x, y))
    → (a ≡ x) × (b ≡ y)
some-pair h = (cc, cc)

-- The proper prefixes of a path that are not empty, the longest one first.
abbrev pub prefixes {ℓ} : {A : Type ℓ} → List A → List (List A)
prefixes [] = []
prefixes (x ∷ []) = []
prefixes (x ∷ y ∷ ys) = map (λ p. x ∷ p) (prefixes (y ∷ ys)) ++ (x ∷ []) ∷ []

prefixes-snoc :
    {A : Type 0} (x : A) (xs : List A) (a : A)
    → prefixes ((x ∷ xs) ++ a ∷ []) ≡ (x ∷ xs) ∷ prefixes (x ∷ xs)
prefixes-snoc x [] a = refl
prefixes-snoc x (y ∷ ys) a = rw (prefixes-snoc y ys a) refl

cut_last-none : (b : ℕ) (s : Bytes) → cut_last b s ≡ none → contains s b ≡ false
unfolding cut_last contains
cut_last-none b [] h = refl
cut_last-none b (c ∷ s) h = elim (Option-cases (cut_last b s)) [
  | inl e ↦ elim (Bool-cases (c == b)) [
    | inl q ↦ absurd (some-ne-none (rw (e, q) at h))
    | inr q ↦ rw q (cut_last-none b s e)
  ]
  | inr (p, e) ↦ absurd (some-ne-none (rw e at h))
]

-- A text that holds the byte is what stands before its last place, the byte, and what stands behind.
cut_last-some :
    (b : ℕ) (s x y : Bytes) → cut_last b s ≡ some (x, y) → (s ≡ x ++ b ∷ y) × (contains y b ≡ false)
unfolding cut_last
cut_last-some b [] x y h = absurd (some-ne-none (sym h))
cut_last-some b (c ∷ s) x y h = elim (Option-cases (cut_last b s)) [
  | inl e ↦ elim (Bool-cases (c == b)) [
    | inl q ↦
        let (p, r) = some-pair (rw (e, q) at h) in
        let d : c ≡ b = ground arith in
        (rw (sym p, sym r, d) refl, rw (sym r) (cut_last-none b s e))
    | inr q ↦ absurd (some-ne-none (sym (rw (e, q) at h)))
  ]
  | inr ((x', y'), e) ↦
      let (p, r) = some-pair (rw e at h) in
      let (u, v) = cut_last-some b s x' y' e in
      (rw (sym p, sym r) (ap (λ l. c ∷ l) u), rw (sym r) v)
]

length-before : (x y : Bytes) (b : ℕ) → length x < length (x ++ b ∷ y)
length-before [] y b = omega arith
length-before (c ∷ x) y b = let h = length-before x y b in omega arith

prefixes-snoc_of : (p : List Bytes) (a : Bytes) → p ≢ [] → prefixes (p ++ a ∷ []) ≡ p ∷ prefixes p
prefixes-snoc_of [] a h = absurd (h refl)
prefixes-snoc_of (x ∷ xs) a h = prefixes-snoc x xs a

split-parents_from :
    (fuel : ℕ) (name : Bytes)
    → length name ≤ fuel
    → map (split b'.') (parents_from fuel name) ≡ prefixes (split b'.' name)
unfolding parents_from parent_of
split-parents_from zero [] h = unfold split in refl
split-parents_from zero (c ∷ name) h = absurd (omega arith)
split-parents_from (suc fuel) name h = elim (Option-cases (cut_last b'.' name)) [
  | inl e ↦ rw (e, split_lacking b'.' name (cut_last-none b'.' name e)) refl
  | inr ((x, y), e) ↦
      let (u, v) = cut_last-some b'.' name x y e in
      let shorter : length x < length name = rw u (length-before x y b'.') in
      rw e (
        ap (λ l. split b'.' x ∷ l) (split-parents_from fuel x (omega arith))
        ∙ sym (prefixes-snoc_of (split b'.' x) y (split-ne-nil b'.' x))
        ∙ ap prefixes (
            sym (
              ap (split b'.') u
              ∙ split-append b'.' x y
              ∙ ap (λ l. split b'.' x ++ l) (split_lacking b'.' y v))))
]

-- A change is told to the observers of every proper prefix of the variable's path, each of them
-- once, the nearest one first.
pub split-parents : (name : Bytes) → map (split b'.') (parents name) ≡ prefixes (split b'.' name)
unfolding parents
split-parents name = split-parents_from (length name) name (omega arith)
