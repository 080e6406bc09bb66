-- ===== src/Startup/Help/Endless.antt =====
-- main.go, `printHelpLine`: a terminal that is too narrow for the second column.
use vss.Prelude.{
  ℕ, zero, suc, ◌+◌, ◌-◌, ◌≤◌, ◌<◌, Bytes, [], ◌∷◌, ◌++◌, ◌≡◌, refl, ap, ◌∙◌, none, some, arith,
  length, length-append, true, false, Bool-cases, inl, inr, ltb, is_nil, Option-cases,
}
use vss.Text.{before, drop, spaces, length-spaces, length-before}
use vss.Startup.Help.{last_space, piece_length, wrap, print_help_line, last_two_spaces}
use vss.Startup.Help.Wrapped.{last_space_bound}

piece_length_fits :
    (size : ℕ) (line : Bytes) → size ≤ length line → 0 < size → piece_length size line ≤ size
piece_length_fits size line long h = elim (Option-cases (last_space (before size line))) [
  | inl e ↦ rw e (omega arith)
  | inr (k, e) ↦
      let bound = last_space_bound (before size line) k e in
      let all = length-before size line long in
      elim (Bool-cases (ltb size (k + 20))) [
        | inl f ↦ rw (e, f) (omega (arith, bound, all))
        | inr f ↦ rw (e, f) (omega arith)
      ]
]

before-spaces : (n a : ℕ) (s : Bytes) → n ≤ a → before n (spaces a ++ s) ≡ spaces n
unfolding before spaces
before-spaces zero a s h = refl
before-spaces (suc n) zero s h = absurd (omega (arith, h))
before-spaces (suc n) (suc a) s h = ap (λ r. 32 ∷ r) (before-spaces n a s (omega (arith, h)))

last_space-spaces : (n : ℕ) → last_space (spaces (suc n)) ≡ some n
unfolding last_space spaces
last_space-spaces zero = refl
last_space-spaces (suc n) = rw (last_space-spaces n) refl

drop-spaces : (n a : ℕ) (s : Bytes) → n ≤ a → drop n (spaces a ++ s) ≡ spaces (a - n) ++ s
unfolding drop spaces
drop-spaces zero a s h = ap (λ k. spaces k ++ s) (omega arith)
drop-spaces (suc n) zero s h = absurd (omega (arith, h))
drop-spaces (suc n) (suc a) s h =
    drop-spaces n a s (omega (arith, h)) ∙ ap (λ k. spaces k ++ s) (omega arith)

spaces-spaces : (a b : ℕ) (s : Bytes) → spaces a ++ (spaces b ++ s) ≡ spaces (a + b) ++ s
unfolding spaces
spaces-spaces zero b s = ap (λ k. spaces k ++ s) (omega arith)
spaces-spaces (suc a) b s =
    let same : suc (a + b) ≡ suc a + b = omega arith in
    ap (λ r. 32 ∷ r) (spaces-spaces a b s) ∙ ap (λ k. spaces k ++ s) same

-- A line that begins with as many spaces as the terminal is wide loses that many spaces.
piece_of_spaces :
    (size a : ℕ) (s : Bytes) → 0 < size → size ≤ a → piece_length size (spaces a ++ s) ≡ size
piece_of_spaces zero a s h hs = absurd (omega (arith, h))
piece_of_spaces (suc n) a s h hs =
    let wide : ltb (suc n) (n + 20) ≡ true = ground arith in
    rw (before-spaces (suc n) a s hs, last_space-spaces n, wide) (omega arith)

is_nil-filled : (a : ℕ) (s : Bytes) → is_nil s ≡ false → is_nil (spaces a ++ s) ≡ false
unfolding spaces
is_nil-filled zero s h = h
is_nil-filled (suc a) s h = refl

is_nil-drop : (n : ℕ) (s : Bytes) → n < length s → is_nil (drop n s) ≡ false
unfolding drop
is_nil-drop zero [] h = absurd (omega (arith, h))
is_nil-drop zero (c ∷ s) h = refl
is_nil-drop (suc n) [] h = absurd (omega (arith, h))
is_nil-drop (suc n) (c ∷ s) h = is_nil-drop n s (omega (arith, h))

-- A round that does not end the loop passes on what the other rounds give.
wrap-none :
    (fuel size identation : ℕ) (line rest : Bytes)
    → ltb (length line) size ≡ false
    → drop (piece_length size line) line ≡ rest
    → is_nil rest ≡ false
    → wrap fuel size identation (spaces identation ++ rest) ≡ none
    → wrap (suc fuel) size identation line ≡ none
unfolding wrap
wrap-none fuel size identation line rest e f g h = rw (e, f, g, h) refl

wrap_of_spaces :
    (fuel size identation a : ℕ) (s : Bytes)
    → 0 < size
    → size ≤ identation
    → size ≤ a
    → is_nil s ≡ false
    → wrap fuel size identation (spaces a ++ s) ≡ none
unfolding wrap
wrap_of_spaces zero size identation a s h hi ha hs = refl
wrap_of_spaces (suc fuel) size identation a s h hi ha hs =
    let long : ltb (length (spaces a ++ s)) size ≡ false =
      let all = length-append (spaces a) s in let blank = length-spaces a in ground arith in
    let left : drop (piece_length size (spaces a ++ s)) (spaces a ++ s) ≡ spaces (a - size) ++ s =
      rw (piece_of_spaces size a s h ha) (drop-spaces size a s ha) in
    wrap-none fuel size identation (spaces a ++ s) (spaces (a - size) ++ s) long left
      (is_nil-filled (a - size) s hs)
      (rw (spaces-spaces identation (a - size) s) (
        wrap_of_spaces fuel size identation (identation + (a - size)) s h hi (omega (arith, hi))
          hs))

-- For a line longer than the terminal is wide, in which two spaces stand, the last ones at `index`, and
-- a terminal of a positive width that the identation of `index + 3` spaces fills: no number of rounds
-- ends the loop.
pub print_help_line_endless :
    (fuel : ℕ) (line : Bytes) (size index : ℕ)
    → last_two_spaces line ≡ some index
    → 0 < size
    → size ≤ index + 3
    → size < length line
    → print_help_line fuel line size ≡ none
unfolding print_help_line
print_help_line_endless zero line size index h positive narrow long =
    let here : ltb (length line) size ≡ false = ground arith in rw (h, here) (unfold wrap in refl)
print_help_line_endless (suc fuel) line size index h positive narrow long =
    let here : ltb (length line) size ≡ false = ground arith in
    let fits = piece_length_fits size line (omega (arith, long)) positive in
    let rest = drop (piece_length size line) line in
    rw (h, here)
      (wrap-none fuel size (index + 2 + 1) line rest here refl
        (is_nil-drop (piece_length size line) line (omega (arith, fits, long)))
        (wrap_of_spaces fuel size (index + 2 + 1) (index + 2 + 1) rest positive
          (omega (arith, narrow)) (omega (arith, narrow))
          (is_nil-drop (piece_length size line) line (omega (arith, fits, long)))))
