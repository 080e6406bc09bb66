-- ===== src/Text/Trim.antt =====
-- strings.TrimSpace of an ASCII text.
use vss.Text.Split.{contains}
use vss.Prelude.{
  ℕ, Bytes, [], ◌∷◌, ◌≡◌, refl, sym, ap, ◌∙◌, true, false, Bool-cases, inl, inr, arith, Bool, ◌&&◌,
  ◌||◌, leb, ◌==◌, if◌then◌else◌, is_nil,
}

unfoldable pub is_space : ℕ → Bool
is_space c = (leb 9 c && leb c 13) || c == b' '

unfoldable pub trim_left : Bytes → Bytes
trim_left [] = []
trim_left (c ∷ s) = let rest = trim_left s in if is_space c then rest else c ∷ s

unfoldable pub trim_right : Bytes → Bytes
trim_right [] = []
trim_right (c ∷ s) = let rest = trim_right s in if is_nil rest && is_space c then [] else c ∷ rest

unfoldable pub trim_space : Bytes → Bytes
trim_space s = trim_right (trim_left s)

not_the_byte : (b c : ℕ) → is_space b ≡ false → is_space c ≡ true → c == b ≡ false
not_the_byte b c h k = elim (Bool-cases (c == b)) [
  | inl e ↦ let d : c ≡ b = ground arith in absurd (cc (ap is_space d, h, k))
  | inr e ↦ e
]

contains-trim_left :
    (b : ℕ) (s : Bytes) → is_space b ≡ false → contains (trim_left s) b ≡ contains s b
unfolding trim_left contains
contains-trim_left b [] h = refl
contains-trim_left b (c ∷ s) h = elim (Bool-cases (is_space c)) [
  | inl e ↦ rw (e, not_the_byte b c h e) (contains-trim_left b s h)
  | inr e ↦ rw e
]

contains_nil : (b : ℕ) (s : Bytes) → is_nil s ≡ true → contains s b ≡ false
unfolding contains
contains_nil b [] h = refl
contains_nil b (c ∷ s) h = cc

contains-trim_right :
    (b : ℕ) (s : Bytes) → is_space b ≡ false → contains (trim_right s) b ≡ contains s b
unfolding trim_right contains
contains-trim_right b [] h = refl
contains-trim_right b (c ∷ s) h = elim (Bool-cases (is_nil (trim_right s) && is_space c)) [
  | inl e ↦
      let here : c == b ≡ false = not_the_byte b c h (ground arith) in
      let behind : contains s b ≡ false =
        sym (contains-trim_right b s h) ∙ contains_nil b (trim_right s) (ground arith) in
      rw (e, here, behind)
  | inr e ↦ rw (e, contains-trim_right b s h)
]

is_nil-contains : (b : ℕ) (s : Bytes) → contains s b ≡ true → is_nil s ≡ false
unfolding contains
is_nil-contains b [] h = cc
is_nil-contains b (c ∷ s) h = refl

-- A text that holds a byte other than white space is not empty when it is trimmed.
pub is_nil-trim_space :
    (b : ℕ) (s : Bytes) → is_space b ≡ false → contains s b ≡ true → is_nil (trim_space s) ≡ false
unfolding trim_space
is_nil-trim_space b s h k =
    is_nil-contains b _ (contains-trim_right b (trim_left s) h ∙ contains-trim_left b s h ∙ k)
