-- ===== src/Controller/SetVar/Allowed.antt =====
-- What the checks of setVar let through: the names that a client may write.
use vss.Prelude.{
  ℕ, Bytes, List, [], ◌∷◌, ◌≡◌, subst, refl, true, false, ◌==◌, All, Bool-cases, inl, inr, arith,
}
use vss.Text.{split, split_at, split_within}
use vss.Controller.SetVar.{contains_underscore_dot, starts_with_underscore}

-- No word of the name is for internal use.
abbrev pub HasNoInternalWord : Bytes → Type 0
HasNoInternalWord name = All (λ w. starts_with_underscore w ≡ false) (split b'.' name)

abbrev pub behind_first : List Bytes → List Bytes
behind_first [] = []
behind_first (p ∷ ps) = ps

abbrev pub first_of : List Bytes → Bytes
first_of [] = []
first_of (p ∷ ps) = p

-- The first word starts as the name does.
first_word :
    (name : Bytes)
    → starts_with_underscore name ≡ false
    → starts_with_underscore (first_of (split b'.' name)) ≡ false
first_word [] h = unfold split in refl
first_word (c ∷ name) h = elim (Bool-cases (c == b'.')) [
  | inl e ↦ rw (split_at b'.' c name e) refl
  | inr e ↦ let (p, ps, a, b) = split_within b'.' c name e in rw b h
]

parts-All :
    (ps : List Bytes)
    → starts_with_underscore (first_of ps) ≡ false
    → All (λ w. starts_with_underscore w ≡ false) (behind_first ps)
    → All (λ w. starts_with_underscore w ≡ false) ps
parts-All [] h k = tt
parts-All (p ∷ ps) h k = (h, k)

behind_dot :
    (c : ℕ) (name : Bytes)
    → c == b'.' ≡ true
    → contains_underscore_dot (c ∷ name) ≡ false
    → starts_with_underscore name ≡ false
unfolding contains_underscore_dot
behind_dot c [] e h = refl
behind_dot c (b ∷ name) e h = ground arith

later_name :
    (c : ℕ) (name : Bytes)
    → contains_underscore_dot (c ∷ name) ≡ false
    → contains_underscore_dot name ≡ false
unfolding contains_underscore_dot
later_name c [] h = refl
later_name c (b ∷ name) h = ground arith

later_words :
    (name : Bytes)
    → contains_underscore_dot name ≡ false
    → All (λ w. starts_with_underscore w ≡ false) (behind_first (split b'.' name))
later_words [] h = unfold split in tt
later_words (c ∷ name) h =
    let later = later_words name (later_name c name h) in
    elim (Bool-cases (c == b'.')) [
      | inl e ↦
          rw (split_at b'.' c name e)
            (parts-All (split b'.' name) (first_word name (behind_dot c name e h)) later)
      | inr e ↦
          let (p, ps, a, b) = split_within b'.' c name e in
          rw b (subst (λ l. All (λ w. starts_with_underscore w ≡ false) (behind_first l)) a later)
    ]

pub HasNoInternalWord-of_name :
    (name : Bytes)
    → starts_with_underscore name ≡ false
    → contains_underscore_dot name ≡ false
    → HasNoInternalWord name
HasNoInternalWord-of_name name h k =
    parts-All (split b'.' name) (first_word name h) (later_words name k)
