-- ===== src/Prelude/Int.antt =====
-- Go's `int` and `int64`: whole numbers, with the wrap of 64 bits written out where the code adds.
use Prim.Native.Nat.{ℕ, zero, suc, ◌+◌, ◌-◌, ◌%◌, ◌^◌, ◌<◌}
use mathlib.Core.Path.{◌≡◌}
use native.Mathlib.Omega.{arith}
use mathlib.Core.Bool.{Bool, true, false}
use vss.Prelude.Tests.{if◌then◌else◌, ◌==◌, ltb, leb}

-- `negsuc n` is -(n + 1).
pub data ℤ : Type 0 where
  pos : ℕ → ℤ
  negsuc : ℕ → ℤ

abbrev pub int_limit : ℕ
int_limit = 2 ^ 63

-- -n
abbrev pub negated : ℕ → ℤ
negated zero = pos 0
negated (suc n) = negsuc n

-- i == j
unfoldable pub int_eq : ℤ → ℤ → Bool
int_eq (pos a) (pos b) = a == b
int_eq (pos a) (negsuc b) = false
int_eq (negsuc a) (pos b) = false
int_eq (negsuc a) (negsuc b) = a == b

-- i + 1
unfoldable pub incr : ℤ → ℤ
incr (pos n) = if n + 1 == int_limit then negsuc (int_limit - 1) else pos (n + 1)
incr (negsuc n) = negated n

pub incr-pos : (n : ℕ) → suc n < int_limit → incr (pos n) ≡ pos (suc n)
unfolding incr
incr-pos n h = ground arith

-- i - 1
unfoldable pub decr : ℤ → ℤ
decr (pos zero) = negsuc 0
decr (pos (suc n)) = pos n
decr (negsuc n) = if n + 1 == int_limit then pos (int_limit - 1) else negsuc (n + 1)

-- The rounds of `for i := 0; i < cnt; i++`.
unfoldable pub rounds : ℤ → ℕ
rounds (pos n) = n
rounds (negsuc n) = 0

-- The whole numbers that 64 bits hold.
abbrev pub IsInt : ℤ → Type 0
IsInt (pos n) = n < int_limit
IsInt (negsuc n) = n < int_limit

-- The 64 bits of a whole number, and the number that 64 bits stand for.
abbrev pub to_word : ℤ → ℕ
to_word (pos n) = n
to_word (negsuc n) = 2 ^ 64 - 1 - n

abbrev pub of_word : ℕ → ℤ
of_word w = if ltb w int_limit then pos w else negsuc (2 ^ 64 - 1 - w)

-- i - j, with its wrap.
unfoldable pub sub : ℤ → ℤ → ℤ
sub i j = of_word ((to_word i + 2 ^ 64 - to_word j) % 2 ^ 64)

-- i <= j
unfoldable pub le_int : ℤ → ℤ → Bool
le_int (pos m) (pos n) = leb m n
le_int (pos m) (negsuc n) = false
le_int (negsuc m) (pos n) = true
le_int (negsuc m) (negsuc n) = leb n m

-- i + j, with its wrap.
unfoldable pub add : ℤ → ℤ → ℤ
add i j = of_word ((to_word i + to_word j) % 2 ^ 64)
