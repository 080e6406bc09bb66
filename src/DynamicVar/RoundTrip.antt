-- ===== src/DynamicVar/RoundTrip.antt =====
-- An integer is read back from its text.
use mathlib.Core.Option.{some-injective}
use vss.Prelude.{
  ℕ, zero, suc, ◌+◌, ◌*◌, ◌/◌, ◌%◌, ◌<◌, Bytes, [], ◌∷◌, ◌≡◌, ◌≢◌, refl, true, false, some, arith,
  All, ltb, Bool-cases, inl, inr, ap, sym, ◌∙◌, str_eq, str_eq_refl, eq_of_str_eq, ◌==◌, leb, false,
  Option, none,
}
use vss.Prelude.Int.{ℤ, pos, negsuc, int_limit, IsInt}
use vss.Text.{contains}
use vss.DynamicVar.{
  int_or_zero, positive, negative, is_digit, digits_value, digits, format, unsigned, atoi, itoa,
  get_int64,
}

abbrev pub IsDigit : ℕ → Type 0
IsDigit c = is_digit c ≡ true

mod_ten-IsDigit : (n : ℕ) → IsDigit (b'0' + n % 10)
unfolding is_digit
mod_ten-IsDigit n = ground arith

digits_stop :
    (fuel n : ℕ) (out : Bytes) → ltb n 10 ≡ true → digits (suc fuel) n out ≡ (b'0' + n % 10) ∷ out
unfolding digits
digits_stop fuel n out e = ground arith

digits_more :
    (fuel n : ℕ) (out : Bytes)
    → ltb n 10 ≡ false
    → digits (suc fuel) n out ≡ digits fuel (n / 10) ((b'0' + n % 10) ∷ out)
unfolding digits
digits_more fuel n out e = ground arith

digits-All : (fuel n : ℕ) (out : Bytes) → All IsDigit out → All IsDigit (digits fuel n out)
digits-All zero n out h = unfold digits in h
digits-All (suc fuel) n out h = elim (Bool-cases (ltb n 10)) [
  | inl e ↦ rw (digits_stop fuel n out e) (mod_ten-IsDigit n, h)
  | inr e ↦ rw (digits_more fuel n out e) (digits-All fuel (n / 10) _ (mod_ten-IsDigit n, h))
]

digits-ne-nil : (fuel n : ℕ) (out : Bytes) → out ≢ [] → digits fuel n out ≢ []
digits-ne-nil zero n out h = unfold digits in h
digits-ne-nil (suc fuel) n out h = elim (Bool-cases (ltb n 10)) [
  | inl e ↦ rw (digits_stop fuel n out e) (λ p. cc)
  | inr e ↦ rw (digits_more fuel n out e) (digits-ne-nil fuel (n / 10) _ (λ p. cc))
]

-- Reading the last digit of `n` behind the digits before it gives `n`.
digits_value_last :
    (n m : ℕ) (out : Bytes)
    → m * 10 + n % 10 ≡ n
    → digits_value m ((b'0' + n % 10) ∷ out) ≡ digits_value n out
unfolding digits_value
digits_value_last n m out h = rw (mod_ten-IsDigit n) (ap (λ k. digits_value k out) (omega arith))

digits_value-digits :
    (fuel n : ℕ) (out : Bytes) → n < fuel → digits_value 0 (digits fuel n out) ≡ digits_value n out
digits_value-digits zero n out h = absurd (omega arith)
digits_value-digits (suc fuel) n out h = elim (Bool-cases (ltb n 10)) [
  | inl e ↦ rw (digits_stop fuel n out e) (digits_value_last n 0 out (ground arith))
  | inr e ↦ rw (digits_more fuel n out e) (
      digits_value-digits fuel (n / 10) _ (ground arith)
      ∙ digits_value_last n (n / 10) out (omega arith))
]

-- A printed number is one or more digits, and nothing else.
pub format-All : (n : ℕ) → All IsDigit (format n)
unfolding format
format-All n = digits-All (suc n) n [] tt

pub format-ne-nil : (n : ℕ) → format n ≢ []
unfolding format
format-ne-nil n = elim (Bool-cases (ltb n 10)) [
  | inl e ↦ rw (digits_stop n n [] e) (λ p. cc)
  | inr e ↦ rw (digits_more n n [] e) (digits-ne-nil n (n / 10) _ (λ p. cc))
]

unsigned-format : (n : ℕ) → unsigned (format n) ≡ some n
unfolding digits_value
unsigned-format n =
    go (format n) (format-ne-nil n)
      (unfold format in digits_value-digits (suc n) n [] (omega arith))
  where
    go : (s : Bytes) → s ≢ [] → digits_value 0 s ≡ some n → unsigned s ≡ some n
    go [] h e = absurd (h refl)
    go (c ∷ s) h e = unfold unsigned in e

-- A text of digits has no sign.
atoi_digits :
    (s : Bytes) (n : ℕ)
    → All IsDigit s
    → unsigned s ≡ some n
    → n < int_limit
    → atoi s ≡ some (pos n)
unfolding atoi is_digit
atoi_digits [] n d e h = unfold unsigned in cc
atoi_digits (c ∷ s) n (d, ds) e h = ground arith

-- Every value of 64 bits is read back from the text that stands for it.
pub get_int64-itoa : (i : ℤ) → IsInt i → get_int64 (itoa i) ≡ i
unfolding get_int64 itoa
get_int64-itoa (pos n) h = rw (atoi_digits (format n) n (format-All n) (unsigned-format n) h)
get_int64-itoa (negsuc n) h = unfold atoi in rw (unsigned-format (suc n)) (ground arith)

-- Two numbers with the same print are the same.
pub format-injective : (m n : ℕ) → format m ≡ format n → m ≡ n
format-injective m n e =
    some-injective m n (sym (unsigned-format m) ∙ ap unsigned e ∙ unsigned-format n)

pub str_eq-format : (m n : ℕ) → str_eq (format m) (format n) ≡ (m == n)
str_eq-format m n = elim (Bool-cases (m == n)) [
  | inl e ↦ let p : m ≡ n = ground arith in rw (e, p) (str_eq_refl (format n))
  | inr e ↦ elim (Bool-cases (str_eq (format m) (format n))) [
    | inl d ↦ let p : m ≡ n = format-injective m n (eq_of_str_eq _ _ d) in absurd (ground arith)
    | inr d ↦ rw (e, d)
  ]
]

contains-digits : (b : ℕ) → is_digit b ≡ false → (s : Bytes) → All IsDigit s → contains s b ≡ false
unfolding contains is_digit
contains-digits b h [] _ = refl
contains-digits b h (c ∷ s) (hc, hs) = ground (arith, contains-digits b h s hs)

-- A printed number holds no byte but digits.
pub contains-format : (n b : ℕ) → is_digit b ≡ false → contains (format n) b ≡ false
contains-format n b h = contains-digits b h (format n) (format-All n)

abbrev IsIntOr : Option ℤ → Type 0
IsIntOr none = Unit
IsIntOr (some i) = IsInt i

positive-IsInt : (o : Option ℕ) → IsIntOr (positive o)
positive-IsInt none = tt
positive-IsInt (some n) = elim (Bool-cases (ltb n int_limit)) [
  | inl e ↦ rw (e, IsIntOr) (ground arith)
  | inr e ↦ rw (e, IsIntOr) tt
]

negative-IsInt : (o : Option ℕ) → IsIntOr (negative o)
negative-IsInt none = tt
negative-IsInt (some zero) = omega arith
negative-IsInt (some (suc n)) = elim (Bool-cases (leb (suc n) int_limit)) [
  | inl e ↦ rw (e, IsIntOr) (ground arith)
  | inr e ↦ rw (e, IsIntOr) tt
]

atoi-IsInt : (s : Bytes) → IsIntOr (atoi s)
unfolding atoi
atoi-IsInt [] = tt
atoi-IsInt (c ∷ s) = elim (Bool-cases (c == b'-')) [
  | inl e ↦ rw (e, IsIntOr) (negative-IsInt (unsigned s))
  | inr e ↦ elim (Bool-cases (c == b'+')) [
    | inl d ↦ rw (e, d, IsIntOr) (positive-IsInt (unsigned s))
    | inr d ↦ rw (e, d, IsIntOr) (positive-IsInt (unsigned (c ∷ s)))
  ]
]

-- What is read back fits 64 bits, whatever the text.
pub get_int64-IsInt : (s : Bytes) → IsInt (get_int64 s)
unfolding get_int64
get_int64-IsInt s = go (atoi s) (atoi-IsInt s)
  where
    go : (o : Option ℤ) → IsIntOr o → IsInt (int_or_zero o)
    go none h = omega arith
    go (some i) h = h

not_digits : (c : ℕ) (s t : Bytes) → is_digit c ≡ false → All IsDigit t → str_eq (c ∷ s) t ≡ false
unfolding str_eq
not_digits c s [] h _ = refl
not_digits c s (d ∷ t) h (hd, _) = elim (Bool-cases (c == d)) [
  | inl e ↦ let p : c ≡ d = ground arith in absurd (not_both c (h) (rw (← p) at hd))
  | inr e ↦ rw e
]
  where
    not_both : (c : ℕ) → is_digit c ≡ false → is_digit c ≡ true → ⊥
    not_both c h k = cc

-- A word that does not begin with a digit is no printed number.
pub word-ne-format :
    (c : ℕ) (s : Bytes) (n : ℕ) → is_digit c ≡ false → str_eq (c ∷ s) (format n) ≡ false
word-ne-format c s n h = not_digits c s (format n) h (format-All n)

pub itoa-ne-nil : (i : ℤ) → itoa i ≢ []
unfolding itoa
itoa-ne-nil (pos n) = format-ne-nil n
itoa-ne-nil (negsuc n) = λ h. cc
