-- ===== src/Startup/Help/Wrapped.antt =====
-- main.go, `printHelpLine`: where the terminal is wide enough, the lines that are printed.
use vss.Prelude.{
  ℕ, zero, suc, ◌+◌, ◌≤◌, ◌<◌, Bytes, List, [], ◌∷◌, ◌++◌, ◌≡◌, refl, sym, ap, ◌∙◌, append-nil,
  Option, none, some, arith, All, length, true, false, Bool-cases, inl, inr, ltb, is_nil, ◌==◌,
  Option-cases,
}
use vss.Text.{before, drop, spaces, length-before, length-drop, drop_indentation, drop-before}
use vss.Startup.Help.{last_space, length_at, piece_length, wrap, print_help_line, last_two_spaces}

pub last_space_bound : (s : Bytes) (k : ℕ) → last_space s ≡ some k → k < length s
unfolding last_space
last_space_bound [] k h = cc
last_space_bound (c ∷ s) k h = elim (Option-cases (last_space s)) [
  | inl e ↦ elim (Bool-cases (c == 32)) [
    | inl f ↦ let here : some 0 ≡ some k = rw (e, f) at h in ground (arith, here)
    | inr f ↦ let here : none ≡ some k = rw (e, f) at h in cc
  ]
  | inr (j, e) ↦
      let here : some (suc j) ≡ some k = rw e at h in
      let bound = last_space_bound s j e in ground (arith, here, bound)
]

length_at_bounds :
    (size lead : ℕ) (o : Option ℕ)
    → ((k : ℕ) → o ≡ some k → k < size)
    → lead + 20 ≤ size
    → (lead < length_at size o) × (length_at size o ≤ size)
length_at_bounds size lead none below h = (omega (arith, h), omega arith)
length_at_bounds size lead (some k) below h = elim (Bool-cases (ltb size (k + 20))) [
  | inl e ↦
      let big : size < k + 20 = ground arith in
      let here : k < size = below k refl in rw e (omega (arith, big, h), omega (arith, here))
  | inr e ↦ rw e (omega (arith, h), omega arith)
]

piece_length_bounds :
    (size lead : ℕ) (line : Bytes)
    → size ≤ length line
    → lead + 20 ≤ size
    → (lead < piece_length size line) × (piece_length size line ≤ size)
piece_length_bounds size lead line long h =
    length_at_bounds size lead (last_space (before size line))
      (λ k e.
        let below = last_space_bound _ k e in omega (arith, below, length-before size line long))
      h

-- The lines behind the first one, without their identation.
abbrev pub continuation : ℕ → List Bytes → Bytes
continuation identation [] = []
continuation identation (p ∷ ps) = drop identation p ++ continuation identation ps

-- `line`, of which the first `lead` bytes are identation, is printed as `first` and `others`.
record Printed (fuel size identation lead : ℕ) (line : Bytes) : Type 0 where
  first : Bytes
  others : List Bytes
  wrapped : wrap fuel size identation line ≡ some (first ∷ others)
  first_fits : length first ≤ size
  others_fit : All (λ p. length p ≤ size) others
  whole : drop lead first ++ continuation identation others ≡ drop lead line

wrap-short :
    (fuel size identation : ℕ) (line : Bytes)
    → ltb (length line) size ≡ true
    → wrap (suc fuel) size identation line ≡ some (line ∷ [])
unfolding wrap
wrap-short fuel size identation line e = rw e refl

wrap-last :
    (fuel size identation : ℕ) (line : Bytes)
    → ltb (length line) size ≡ false
    → drop (piece_length size line) line ≡ []
    → wrap (suc fuel) size identation line ≡ some (before (piece_length size line) line ∷ [])
unfolding wrap
wrap-last fuel size identation line e f = rw (e, f) refl

wrap-more :
    (fuel size identation : ℕ) (line rest : Bytes) (first : Bytes) (others : List Bytes)
    → ltb (length line) size ≡ false
    → drop (piece_length size line) line ≡ rest
    → is_nil rest ≡ false
    → wrap fuel size identation (spaces identation ++ rest) ≡ some (first ∷ others)
    → wrap (suc fuel) size identation line
      ≡ some (before (piece_length size line) line ∷ first ∷ others)
unfolding wrap
wrap-more fuel size identation line rest first others e f g h = rw (e, f, g, h) refl

is_nil-eq : (s : Bytes) → is_nil s ≡ true → s ≡ []
is_nil-eq [] h = refl
is_nil-eq (c ∷ s) h = cc

further :
    (fuel size identation lead : ℕ) (line : Bytes)
    → ltb (length line) size ≡ false
    → is_nil (drop (piece_length size line) line) ≡ false
    → lead ≤ piece_length size line
    → piece_length size line ≤ size
    → piece_length size line ≤ length line
    → Printed fuel size identation identation
        (spaces identation ++ drop (piece_length size line) line)
    → Printed (suc fuel) size identation lead line
further fuel size identation lead line e f later fits inside p = record {
  first = before (piece_length size line) line;
  others = p.first ∷ p.others;
  wrapped =
      wrap-more fuel size identation line (drop (piece_length size line) line) p.first p.others e
        refl f p.wrapped;
  first_fits =
      let exact = length-before (piece_length size line) line inside in omega (arith, exact, fits);
  others_fit = (p.first_fits, p.others_fit);
  whole =
      ap (λ r. drop lead (before (piece_length size line) line) ++ r)
        (p.whole ∙ drop_indentation identation (drop (piece_length size line) line))
      ∙ drop-before lead (piece_length size line) line later;
}

printed :
    (fuel size identation lead : ℕ) (line : Bytes)
    → identation + 20 ≤ size
    → lead + 20 ≤ size
    → length (drop lead line) < fuel
    → Printed fuel size identation lead line
printed zero size identation lead line h hl enough = absurd (omega (arith, enough))
printed (suc fuel) size identation lead line h hl enough =
    elim (Bool-cases (ltb (length line) size)) [
      | inl e ↦
          let short : length line ≤ size = ground arith in
          record {
            first = line;
            others = [];
            wrapped = wrap-short fuel size identation line e;
            first_fits = short;
            others_fit = tt;
            whole = append-nil _;
          }
      | inr e ↦
          let long : size ≤ length line = ground arith in
          let bounds = piece_length_bounds size lead line long hl in
          elim (Bool-cases (is_nil (drop (piece_length size line) line))) [
            | inl f ↦
                let nothing = is_nil-eq _ f in
                record {
                  first = before (piece_length size line) line;
                  others = [];
                  wrapped = wrap-last fuel size identation line e nothing;
                  first_fits =
                      let fits =
                        length-before (piece_length size line) line (omega (arith, long, bounds)) in
                      omega (arith, fits, bounds);
                  others_fit = tt;
                  whole =
                      ap (λ r. drop lead (before (piece_length size line) line) ++ r) (sym nothing)
                      ∙ drop-before lead (piece_length size line) line (omega (arith, bounds));
                }
            | inr f ↦
                let rest = drop (piece_length size line) line in
                let behind = drop_indentation identation rest in
                let fewer : length (drop identation (spaces identation ++ rest)) < fuel =
                  rw (behind, length-drop (piece_length size line) line)
                    (let all = length-drop lead line in omega (arith, enough, all, bounds, long)) in
                further fuel size identation lead line e f (omega (arith, bounds)) (bounds.1)
                  (omega (arith, long, bounds))
                  (printed fuel size identation identation (spaces identation ++ rest) h h fewer)
          ]
    ]

-- `line` is printed as `first` and `others`, the others behind `identation` spaces.
pub record PrintedHelp (line : Bytes) (size identation : ℕ) : Type 0 where
  pub first : Bytes
  pub others : List Bytes
  pub prints : print_help_line (suc (length line)) line size ≡ some (first ∷ others)
  pub fits : All (λ p. length p ≤ size) (first ∷ others)
  pub whole : first ++ continuation identation others ≡ line

help_of :
    (line : Bytes) (size index : ℕ)
    → last_two_spaces line ≡ some index
    → Printed (suc (length line)) size (index + 2 + 1) 0 line
    → PrintedHelp line size (index + 2 + 1)
unfolding print_help_line drop
help_of line size index h p = elim (Bool-cases (ltb (length line) size)) [
  | inl e ↦ record {
    first = line;
    others = [];
    prints = rw (h, e) refl;
    fits = (ground arith, tt);
    whole = append-nil line;
  }
  | inr e ↦ record {
    first = p.first;
    others = p.others;
    prints = rw (h, e) p.wrapped;
    fits = (p.first_fits, p.others_fit);
    whole = p.whole;
  }
]

-- For a line in which two spaces stand, the last ones at `index`, and a terminal with room for 23 bytes
-- behind them: one more round of the loop than the line has bytes is enough, no line that is printed is
-- longer than the terminal, and the lines, all but the first one without their identation
-- of `index + 3` spaces, are the text of the line, nothing lost and nothing twice.
pub print_help_line_ends :
    (line : Bytes) (size index : ℕ)
    → last_two_spaces line ≡ some index
    → index + 23 ≤ size
    → PrintedHelp line size (index + 2 + 1)
print_help_line_ends line size index h wide = help_of line size index h (
    printed (suc (length line)) size (index + 2 + 1) 0 line (omega (arith, wide))
      (omega (arith, wide)) (unfold drop in omega arith))
