-- ===== src/Logger/Common/Lines.antt =====
-- loggerutils/common.go, `Ident`: line by line.
use vss.Prelude.{
  ℕ, Bytes, List, [], ◌∷◌, ◌++◌, ◌≡◌, ◌≢◌, refl, sym, ap, ◌∙◌, append_assoc, append-nil, false,
  is_nil, arith, if◌then◌else◌, ◌==◌, Bool-cases, inl, inr,
}
use vss.Text.{
  before-append, contains, split, split-ne-nil, split-ne-nil_nil, split_at, split_within,
}
use vss.Logger.Common.{ident, replace_all, ends_line}

-- Every line with `prefix` before it, but not what a last line break leaves.
abbrev pub other_lines : Bytes → List Bytes → List Bytes
other_lines prefix [] = []
other_lines prefix ([] ∷ []) = [] ∷ []
other_lines prefix ([] ∷ l ∷ ls) = prefix ∷ other_lines prefix (l ∷ ls)
other_lines prefix ((c ∷ l) ∷ ls) = (prefix ++ c ∷ l) ∷ other_lines prefix ls

-- The lines of a text, all but the first one with `prefix` before them.
abbrev pub indented : Bytes → List Bytes → List Bytes
indented prefix [] = []
indented prefix (l ∷ ls) = l ∷ other_lines prefix ls

-- Ident, byte by byte.
abbrev idented : Bytes → Bytes → Bytes
idented prefix [] = []
idented prefix (c ∷ s) =
    let rest = idented prefix s in
    if c == 10 then (if is_nil s then 10 ∷ [] else 10 ∷ prefix ++ rest) else c ∷ rest

replace_all-idented :
    (prefix s : Bytes)
    → replace_all 10 (10 ∷ prefix) s ≡ idented prefix s ++ (if ends_line s then prefix else [])
unfolding replace_all ends_line
replace_all-idented prefix [] = refl
replace_all-idented prefix (c ∷ []) = elim (Bool-cases (c == 10)) [
  | inl e ↦ rw e (append-nil _)
  | inr e ↦ rw e refl
]
replace_all-idented prefix (c ∷ d ∷ s) = elim (Bool-cases (c == 10)) [
  | inl e ↦
      rw (e, replace_all-idented prefix (d ∷ s)) (ap (λ r. 10 ∷ r) (sym (append_assoc prefix _ _)))
  | inr e ↦ rw (e, replace_all-idented prefix (d ∷ s)) refl
]

ident-idented : (s prefix : Bytes) → ident s prefix ≡ idented prefix s
unfolding ident
ident-idented s prefix = elim (Bool-cases (ends_line s)) [
  | inl e ↦
      let here = replace_all-idented prefix s in
      rw (here, e) (before-append (idented prefix s) prefix)
  | inr e ↦ let here = replace_all-idented prefix s in rw (here, e) (append-nil _)
]

abbrev onto : ℕ → List Bytes → List Bytes
onto c [] = []
onto c (q ∷ qs) = (c ∷ q) ∷ qs

split_parts : (s : Bytes) → (l : Bytes) × (ls : List Bytes) × (split 10 s ≡ l ∷ ls)
split_parts s = go (split 10 s) refl
  where
    go :
        (ps : List Bytes)
        → split 10 s ≡ ps
        → (l : Bytes) × (ls : List Bytes) × (split 10 s ≡ l ∷ ls)
    go [] e = absurd (split-ne-nil 10 s e)
    go (p ∷ ps) e = (p, ps, e)

-- A text without a line break goes before the first line.
split_behind :
    (p s l : Bytes) (ls : List Bytes)
    → contains p 10 ≡ false
    → split 10 s ≡ l ∷ ls
    → split 10 (p ++ s) ≡ (p ++ l) ∷ ls
unfolding contains
split_behind [] s l ls h e = e
split_behind (c ∷ p) s l ls h e =
    let here : c == 10 ≡ false = ground arith in
    let later : contains p 10 ≡ false = ground arith in
    let (q, qs, e1, e2) = split_within 10 c (p ++ s) here in
    let same : q ∷ qs ≡ (p ++ l) ∷ ls = sym e1 ∙ split_behind p s l ls later e in
    e2 ∙ ap (λ ps. onto c ps) same

other_lines_filled :
    (prefix l : Bytes) (ls : List Bytes)
    → l ∷ ls ≢ [] ∷ []
    → other_lines prefix (l ∷ ls) ≡ (prefix ++ l) ∷ other_lines prefix ls
other_lines_filled prefix [] [] h = absurd (h refl)
other_lines_filled prefix [] (m ∷ ms) h = rw (append-nil prefix) refl
other_lines_filled prefix (c ∷ l) ls h = refl

-- A line break, and text behind it.
split_below :
    (prefix s : Bytes) (d : ℕ)
    → contains prefix 10 ≡ false
    → split 10 (idented prefix (d ∷ s)) ≡ indented prefix (split 10 (d ∷ s))
    → split 10 (10 ∷ prefix ++ idented prefix (d ∷ s)) ≡ indented prefix ([] ∷ split 10 (d ∷ s))
split_below prefix s d h below =
    let (l, ls, e) = split_parts (d ∷ s) in
    let filled : l ∷ ls ≢ [] ∷ [] = λ x. split-ne-nil_nil 10 d s (e ∙ x) in
    let after =
      split_behind prefix _ l (other_lines prefix ls) h (below ∙ ap (indented prefix) e) in
    split_at 10 10 _ refl
    ∙ ap (λ ps. [] ∷ ps)
        (after ∙ sym (other_lines_filled prefix l ls filled) ∙ ap (other_lines prefix) (sym e))

split-idented :
    (prefix s : Bytes)
    → contains prefix 10 ≡ false
    → split 10 (idented prefix s) ≡ indented prefix (split 10 s)
split-idented prefix [] h = unfold split in refl
split-idented prefix (c ∷ []) h = elim (Bool-cases (c == 10)) [
  | inl e ↦ unfold split in rw e refl
  | inr e ↦ unfold split in rw e (rw e refl)
]
split-idented prefix (c ∷ d ∷ s) h = elim (Bool-cases (c == 10)) [
  | inl e ↦
      rw (e, split_at 10 c (d ∷ s) e) (split_below prefix s d h (split-idented prefix (d ∷ s) h))
  | inr e ↦
      let (q, qs, e1, e2) = split_within 10 c (d ∷ s) e in
      let (q2, qs2, f1, f2) = split_within 10 c (idented prefix (d ∷ s)) e in
      let same : q2 ∷ qs2 ≡ q ∷ other_lines prefix qs =
        sym f1 ∙ split-idented prefix (d ∷ s) h ∙ ap (indented prefix) e1 in
      rw (e, e2) (f2 ∙ ap (onto c) same)
]

-- For a prefix without a line break: the lines of what Ident gives are the lines of its text, each but the
-- first one with the prefix before it, and an empty last one, which a last line break leaves, as it is.
pub split-ident :
    (source prefix : Bytes)
    → contains prefix 10 ≡ false
    → split 10 (ident source prefix) ≡ indented prefix (split 10 source)
split-ident source prefix h =
    ap (split 10) (ident-idented source prefix) ∙ split-idented prefix source h
