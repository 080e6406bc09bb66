-- ===== src/Text/Slice.antt =====
-- Slices of a text, and strings.Repeat.
use vss.Prelude.{
  ℕ, zero, suc, ◌-◌, ◌≤◌, Bytes, [], ◌∷◌, ◌++◌, ◌≡◌, refl, ap, arith, length, length-append,
}

-- s[:n]
unfoldable pub before : ℕ → Bytes → Bytes
before zero s = []
before (suc n) [] = []
before (suc n) (c ∷ s) = c ∷ before n s

-- s[n:]
unfoldable pub drop : ℕ → Bytes → Bytes
drop zero s = s
drop (suc n) [] = []
drop (suc n) (c ∷ s) = drop n s

-- strings.Repeat(" ", n)
unfoldable pub spaces : ℕ → Bytes
spaces zero = []
spaces (suc n) = 32 ∷ spaces n

pub before-length : (s t : Bytes) → before (length s) (s ++ t) ≡ s
unfolding before
before-length [] t = refl
before-length (c ∷ s) t = ap (λ r. c ∷ r) (before-length s t)

pub before-append : (s t : Bytes) → before (length (s ++ t) - length t) (s ++ t) ≡ s
before-append s t =
    let here : length (s ++ t) - length t ≡ length s = omega (arith, length-append s t) in
    rw here (before-length s t)

pub before-drop : (n : ℕ) (s : Bytes) → before n s ++ drop n s ≡ s
unfolding before drop
before-drop zero s = refl
before-drop (suc n) [] = refl
before-drop (suc n) (c ∷ s) = ap (λ r. c ∷ r) (before-drop n s)

pub length-spaces : (n : ℕ) → length (spaces n) ≡ n
unfolding spaces
length-spaces zero = refl
length-spaces (suc n) = ap suc (length-spaces n)

pub length-drop : (n : ℕ) (s : Bytes) → length (drop n s) ≡ length s - n
unfolding drop
length-drop zero s = omega arith
length-drop (suc n) [] = omega arith
length-drop (suc n) (c ∷ s) = omega (arith, length-drop n s)

pub length-before : (n : ℕ) (s : Bytes) → n ≤ length s → length (before n s) ≡ n
unfolding before
length-before zero s h = refl
length-before (suc n) [] h = omega (arith, h)
length-before (suc n) (c ∷ s) h = omega (arith, length-before n s (omega (arith, h)))

pub drop_indentation : (n : ℕ) (t : Bytes) → drop n (spaces n ++ t) ≡ t
unfolding drop spaces
drop_indentation zero t = refl
drop_indentation (suc n) t = drop_indentation n t

pub drop-before : (k n : ℕ) (s : Bytes) → k ≤ n → drop k (before n s) ++ drop n s ≡ drop k s
unfolding drop before
drop-before zero n s h = before-drop n s
drop-before (suc k) zero s h = absurd (omega (arith, h))
drop-before (suc k) (suc n) [] h = refl
drop-before (suc k) (suc n) (c ∷ s) h = drop-before k n s (omega (arith, h))
