-- ===== src/Text/Split.antt =====
-- strings.Cut and strings.Split at one byte.
pub mod Count
use vss.Prelude.{
  ℕ, ◌<◌, Bytes, List, [], ◌∷◌, ◌++◌, ◌≡◌, ◌≢◌, sym, refl, Option, none, some, arith, Bool, true,
  false, ◌||◌, ◌&&◌, All, inl, inr, Bool-cases, ◌==◌, if◌then◌else◌, length,
}

extend : ℕ → Option (Bytes × Bytes) → Option (Bytes × Bytes)
extend c none = none
extend c (some (before, after)) = some (c ∷ before, after)

-- strings.Contains of a one-byte text.
unfoldable pub contains : Bytes → ℕ → Bool
contains [] b = false
contains (c ∷ s) b = c == b || contains s b

-- The text before the first `b` and the text behind it.
unfoldable pub cut : ℕ → Bytes → Option (Bytes × Bytes)
unfolding extend
cut b [] = none
cut b (c ∷ s) = let rest = cut b s in if c == b then some ([], s) else extend c rest

onto_head : ℕ → List Bytes → List Bytes
onto_head c [] = (c ∷ []) ∷ []
onto_head c (p ∷ ps) = (c ∷ p) ∷ ps

unfoldable pub split : ℕ → Bytes → List Bytes
unfolding onto_head
split b [] = [] ∷ []
split b (c ∷ s) = let rest = split b s in if c == b then [] ∷ rest else onto_head c rest

pub split-ne-nil : (b : ℕ) (s : Bytes) → split b s ≢ []
unfolding split
split-ne-nil b [] = λ h. cc
split-ne-nil b (c ∷ s) = λ h. ground (arith, split-ne-nil b s)

pub split-none : (b : ℕ) (s : Bytes) → cut b s ≡ none → split b s ≡ s ∷ []
unfolding cut split
split-none b [] h = refl
split-none b (c ∷ s) h = ground (arith, split-none b s)

some-pair :
    {a b x y : Bytes}
    → ◌≡◌ {A = Option (Bytes × Bytes)} (some (a, b)) (some (x, y))
    → (a ≡ x) × (b ≡ y)
some-pair h = (cc, cc)

extend-eq-some :
    (c : ℕ) (o : Option (Bytes × Bytes)) (x y : Bytes)
    → extend c o ≡ some (x, y)
    → (x' : Bytes) × (o ≡ some (x', y)) × (x ≡ c ∷ x')
unfolding extend
extend-eq-some c none x y h = cc
extend-eq-some c (some (x', y')) x y h = (x', ground arith, ground arith)

-- A cut text is `x`, the byte and `y`, and `x` holds no such byte.
pub split-some : (b : ℕ) (s x y : Bytes) → cut b s ≡ some (x, y) → split b s ≡ x ∷ split b y
unfolding cut split
split-some b [] x y h = cc
split-some b (c ∷ s) x y h = elim (Bool-cases (c == b)) [
  | inl e ↦
      let q : ◌≡◌ {A = Option (Bytes × Bytes)} (some ([], s)) (some (x, y)) = rw e at h in
      rw (e) (let (p, r) = some-pair q in rw (p, r))
  | inr e ↦
      let (x', o, p) = extend-eq-some c (cut b s) x y (rw e at h) in
      rw (e, split-some b s x' y o) (rw p)
]

pub length-cut : (b : ℕ) (s x y : Bytes) → cut b s ≡ some (x, y) → length y < length s
unfolding cut
length-cut b [] x y h = cc
length-cut b (c ∷ s) x y h = elim (Bool-cases (c == b)) [
  | inl e ↦ ground arith
  | inr e ↦
      let (x', o, p) = extend-eq-some c (cut b s) x y (rw e at h) in
      omega (arith, length-cut b s x' y o)
]

-- Only the empty text splits into one empty part.
pub split-ne-nil_nil : (b c : ℕ) (s : Bytes) → split b (c ∷ s) ≢ [] ∷ []
unfolding split
split-ne-nil_nil b c s h = go (split b s) refl h
  where
    go : (ps : List Bytes) → split b s ≡ ps → (if c == b then [] ∷ ps else onto_head c ps) ≢ [] ∷ []
    go [] e h = split-ne-nil b s e
    go (p ∷ ps) e h = ground arith

onto_head-append :
    (c : ℕ) (ps qs : List Bytes) → ps ≢ [] → onto_head c (ps ++ qs) ≡ onto_head c ps ++ qs
unfolding onto_head
onto_head-append c [] qs h = absurd (h refl)
onto_head-append c (p ∷ ps) qs h = refl

-- The parts of two texts joined by the separator are those of the one and those of the other.
pub split-append : (b : ℕ) (s t : Bytes) → split b (s ++ b ∷ t) ≡ split b s ++ split b t
unfolding split
split-append b [] t = ground arith
split-append b (c ∷ s) t =
    rw (split-append b s t, onto_head-append c (split b s) (split b t) (split-ne-nil b s))
      (ground arith)

-- A text without the separator is one part.
pub split_lacking : (b : ℕ) (s : Bytes) → contains s b ≡ false → split b s ≡ s ∷ []
unfolding split contains
split_lacking b [] h = refl
split_lacking b (c ∷ s) h = ground (arith, split_lacking b s)

onto_head-All :
    (b c : ℕ) (ps : List Bytes)
    → c == b ≡ false
    → All (λ p. contains p b ≡ false) ps
    → All (λ p. contains p b ≡ false) (onto_head c ps)
unfolding onto_head contains
onto_head-All b c [] e h = (ground arith, tt)
onto_head-All b c (p ∷ ps) e (h, hs) = (ground arith, hs)

-- No part of a split text holds the separator.
pub split-All : (b : ℕ) (s : Bytes) → All (λ p. contains p b ≡ false) (split b s)
unfolding split
split-All b [] = (unfold contains in refl, tt)
split-All b (c ∷ s) = go (split b s) (split-All b s)
  where
    go :
        (ps : List Bytes)
        → All (λ p. contains p b ≡ false) ps
        → All (λ p. contains p b ≡ false) (if c == b then [] ∷ ps else onto_head c ps)
    go ps h = elim (Bool-cases (c == b)) [
      | inl e ↦ rw e (unfold contains in (refl, h))
      | inr e ↦ rw e (onto_head-All b c ps e h)
    ]

abbrev or_else : ℕ → ℕ → Bytes → Option (Bytes × Bytes) → Option (Bytes × Bytes)
or_else b c s (some (before, after)) = some (c ∷ before, after)
or_else b c s none = if c == b then some ([], s) else none

-- The text before the last `b` and the text behind it.
unfoldable pub cut_last : ℕ → Bytes → Option (Bytes × Bytes)
cut_last b [] = none
cut_last b (c ∷ s) = or_else b c s (cut_last b s)

-- strings.HasPrefix
unfoldable pub has_prefix : Bytes → Bytes → Bool
has_prefix s [] = true
has_prefix [] (c ∷ p) = false
has_prefix (d ∷ s) (c ∷ p) = d == c && has_prefix s p

-- strings.Contains
unfoldable pub contains_text : Bytes → Bytes → Bool
unfolding has_prefix
contains_text [] p = has_prefix [] p
contains_text (c ∷ s) p = has_prefix (c ∷ s) p || contains_text s p

-- The separator ends a part.
pub split_at : (b c : ℕ) (s : Bytes) → c == b ≡ true → split b (c ∷ s) ≡ [] ∷ split b s
unfolding split
split_at b c s h = rw h

-- Another byte stands in front of the first part.
pub split_within :
    (b c : ℕ) (s : Bytes)
    → c == b ≡ false
    → (p : Bytes) × (ps : List Bytes) × (split b s ≡ p ∷ ps) × (split b (c ∷ s) ≡ (c ∷ p) ∷ ps)
split_within b c s h = go (split b s) refl
  where
    go :
        (ps : List Bytes)
        → split b s ≡ ps
        → (q : Bytes) × (qs : List Bytes) × (split b s ≡ q ∷ qs) × (split b (c ∷ s) ≡ (c ∷ q) ∷ qs)
    go [] e = absurd (split-ne-nil b s e)
    go (p ∷ ps) e = (p, ps, e, unfold split onto_head in rw (h, e))

extend-some :
    (c : ℕ) (o : Option (Bytes × Bytes)) (x y : Bytes)
    → o ≡ some (x, y)
    → extend c o ≡ some (c ∷ x, y)
unfolding extend
extend-some c o x y h = rw h refl

-- Bytes behind the first separator do not change where a text is cut.
pub cut-append :
    (b : ℕ) (s t x y : Bytes) → cut b s ≡ some (x, y) → cut b (s ++ t) ≡ some (x, y ++ t)
unfolding cut
cut-append b [] t x y h = cc
cut-append b (c ∷ s) t x y h = elim (Bool-cases (c == b)) [
  | inl e ↦ let (p, q) = some-pair (rw e at h) in rw (e, sym p, sym q) refl
  | inr e ↦
      let (x', p, q) = extend-eq-some c (cut b s) x y (rw e at h) in
      rw (e, q) (extend-some c _ x' (y ++ t) (cut-append b s t x' y p))
]

-- A text is cut at the first place of the separator, and not cut where there is none.
pub cut_at_first : (b : ℕ) (s t : Bytes) → contains s b ≡ false → cut b (s ++ b ∷ t) ≡ some (s, t)
unfolding cut contains
cut_at_first b [] t h = ground arith
cut_at_first b (c ∷ s) t h =
    let here : c == b ≡ false = ground arith in
    let later : contains s b ≡ false = ground arith in
    rw here (extend-some c _ s t (cut_at_first b s t later))

pub cut_lacking : (b : ℕ) (s : Bytes) → contains s b ≡ false → cut b s ≡ none
unfolding cut contains extend
cut_lacking b [] h = refl
cut_lacking b (c ∷ s) h =
    let here : c == b ≡ false = ground arith in
    let later : contains s b ≡ false = ground arith in rw (here, cut_lacking b s later) refl

pub has_prefix-append : (s t p : Bytes) → has_prefix s p ≡ true → has_prefix (s ++ t) p ≡ true
unfolding has_prefix
has_prefix-append s t [] h = unfold has_prefix in refl
has_prefix-append [] t (c ∷ p) h = cc
has_prefix-append (d ∷ s) t (c ∷ p) h = ground (arith, has_prefix-append s t p)

-- A text holds what its first part holds.
pub contains_text-append :
    (s t p : Bytes) → contains_text s p ≡ true → contains_text (s ++ t) p ≡ true
unfolding contains_text
contains_text-append [] [] p h = h
contains_text-append [] (c ∷ t) p h = rw (has_prefix-append [] (c ∷ t) p h) refl
contains_text-append (c ∷ s) t p h =
    ground (arith, has_prefix-append (c ∷ s) t p, contains_text-append s t p)
