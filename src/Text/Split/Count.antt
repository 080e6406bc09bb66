-- ===== src/Text/Split/Count.antt =====
-- strings.Count of a one-byte text, and what it says of strings.Cut and strings.Split.
use vss.Prelude.{
  ℕ, ◌+◌, suc, Bytes, List, [], ◌∷◌, ◌++◌, ◌≡◌, refl, Option, none, some, arith, false, ◌||◌, inl,
  inr, Bool-cases, ◌==◌, if◌then◌else◌, length, sym,
}
use vss.Text.Split.{contains, cut, split, extend-eq-some, onto_head, extend, some-pair}

unfoldable pub count : ℕ → Bytes → ℕ
count b [] = 0
count b (c ∷ s) = let rest = count b s in if c == b then suc rest else rest

pub contains-append : (b : ℕ) (s t : Bytes) → contains (s ++ t) b ≡ (contains s b || contains t b)
unfolding contains
contains-append b [] t = refl
contains-append b (c ∷ s) t = ground (arith, contains-append b s t)

pub count-append : (b : ℕ) (s t : Bytes) → count b (s ++ t) ≡ count b s + count b t
unfolding count
count-append b [] t = omega arith
count-append b (c ∷ s) t = ground (arith, count-append b s t)

pub count_lacking : (b : ℕ) (s : Bytes) → contains s b ≡ false → count b s ≡ 0
unfolding count contains
count_lacking b [] h = refl
count_lacking b (c ∷ s) h = ground (arith, count_lacking b s)

length-onto_head :
    (c : ℕ) (ps : List Bytes) (n : ℕ) → length ps ≡ suc n → length (onto_head c ps) ≡ suc n
unfolding onto_head
length-onto_head c [] n h = cc
length-onto_head c (p ∷ ps) n h = h

pub length-split : (b : ℕ) (s : Bytes) → length (split b s) ≡ suc (count b s)
unfolding split count
length-split b [] = refl
length-split b (c ∷ s) = elim (Bool-cases (c == b)) [
  | inl e ↦ rw e (omega (arith, length-split b s))
  | inr e ↦ rw e (length-onto_head c (split b s) (count b s) (length-split b s))
]

-- What a text is cut into: no separator in front, and one less behind.
pub cut_counts :
    (b : ℕ) (s x y : Bytes)
    → cut b s ≡ some (x, y)
    → (contains x b ≡ false) × (count b s ≡ suc (count b y))
unfolding cut count contains
cut_counts b [] x y h = cc
cut_counts b (c ∷ s) x y h = elim (Bool-cases (c == b)) [
  | inl e ↦ let (p, q) = some-pair (rw e at h) in (rw (sym p), rw (e, sym q))
  | inr e ↦
      let (x', o, p) = extend-eq-some c (cut b s) x y (rw e at h) in
      let (none_before, n) = cut_counts b s x' y o in (rw p (ground arith), rw e n)
]

extend-none : (c : ℕ) (o : Option (Bytes × Bytes)) → extend c o ≡ none → o ≡ none
unfolding extend
extend-none c none h = refl
extend-none c (some (x, y)) h = cc

pub contains-cut : (b : ℕ) (s : Bytes) → cut b s ≡ none → contains s b ≡ false
unfolding cut contains
contains-cut b [] h = refl
contains-cut b (c ∷ s) h = elim (Bool-cases (c == b)) [
  | inl e ↦ let q : ◌≡◌ {A = Option (Bytes × Bytes)} (some ([], s)) none = rw e at h in cc
  | inr e ↦ rw e (contains-cut b s (extend-none c (cut b s) (rw e at h)))
]
