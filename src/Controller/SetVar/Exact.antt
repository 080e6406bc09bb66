-- ===== src/Controller/SetVar/Exact.antt =====
-- setVar succeeds for the names and values that may be written, and for no others.
use vss.Prelude.{
  ℕ, Bytes, List, [], ◌∷◌, ◌≡◌, subst, sym, ◌∙◌, ◌≢◌, if◌then◌else◌, ◌⊎◌, ◌↔◌, some, ◌||◌, ◌&&◌,
  not, refl, true, false, ◌==◌, is_nil, none, All, Bool-cases, inl, inr, arith,
}
use vss.Text.{contains, split, split_at, split_within}
use vss.Prelude.Int.{ℤ, pos, le_int}
use vss.Storage.Interface.{IStorage}
use vss.Controller.VarFlags.{is_locked, set_value}
use vss.Controller.VarHelper.{set_controlled_var_name}
use vss.Controller.SetVar.Outcomes.{filtered, set_var_cases, some-ne-none}
use vss.Controller.SetVar.{
  SetError, Outcome, any_longer, set_var, controlled, Conf, contains_underscore_dot,
  starts_with_underscore, longer, check_var,
}
use vss.Controller.SetVar.Allowed.{
  HasNoInternalWord, behind_first, first_of, HasNoInternalWord-of_name,
}

true-ne-false : true ≢ false
true-ne-false h = cc

first_word_back :
    (name : Bytes)
    → starts_with_underscore (first_of (split b'.' name)) ≡ false
    → starts_with_underscore name ≡ false
first_word_back [] h = refl
first_word_back (c ∷ name) h = elim (Bool-cases (c == b'.')) [
  | inl e ↦ ground arith
  | inr e ↦ let (p, ps, a, b) = split_within b'.' c name e in rw b at h
]

first-All :
    (ps : List Bytes)
    → All (λ w. starts_with_underscore w ≡ false) ps
    → (starts_with_underscore (first_of ps) ≡ false)
      × All (λ w. starts_with_underscore w ≡ false) (behind_first ps)
first-All [] h = (refl, h)
first-All (p ∷ ps) (h, k) = (h, k)

no_underscore_dot :
    (c : ℕ) (name : Bytes)
    → starts_with_underscore name ≡ false
    → contains_underscore_dot name ≡ false
    → contains_underscore_dot (c ∷ name) ≡ false
unfolding contains_underscore_dot
no_underscore_dot c [] h k = refl
no_underscore_dot c (b ∷ name) h k = ground arith

within_word :
    (c : ℕ) (name : Bytes)
    → c == b'.' ≡ false
    → contains_underscore_dot name ≡ false
    → contains_underscore_dot (c ∷ name) ≡ false
unfolding contains_underscore_dot
within_word c [] h k = refl
within_word c (b ∷ name) h k = ground arith

later_words_back :
    (name : Bytes)
    → All (λ w. starts_with_underscore w ≡ false) (behind_first (split b'.' name))
    → contains_underscore_dot name ≡ false
later_words_back [] h = unfold contains_underscore_dot in refl
later_words_back (c ∷ name) h = elim (Bool-cases (c == b'.')) [
  | inl e ↦
      let (f, k) = first-All (split b'.' name) (rw (split_at b'.' c name e) at h) in
      no_underscore_dot c name (first_word_back name f) (later_words_back name k)
  | inr e ↦
      let (p, ps, a, b) = split_within b'.' c name e in
      let same : All (λ w. starts_with_underscore w ≡ false) ps = rw b at h in
      within_word c name e (
        later_words_back name
          (subst (λ l. All (λ w. starts_with_underscore w ≡ false) (behind_first l)) (sym a) same))
]

-- A limit of 0 or less is none.
abbrev pub IsWithin : ℤ → Bytes → Type 0
IsWithin limit w = (le_int limit (pos 0) || not (longer w limit)) ≡ true

any_longer-All :
    (limit : ℤ) (ps : List Bytes)
    → (not (le_int limit (pos 0)) && any_longer ps limit) ≡ false
    → All (IsWithin limit) ps
unfolding any_longer
any_longer-All limit [] h = tt
any_longer-All limit (p ∷ ps) h = (ground arith, any_longer-All limit ps (ground arith))

All-any_longer :
    (limit : ℤ) (ps : List Bytes)
    → All (IsWithin limit) ps
    → (not (le_int limit (pos 0)) && any_longer ps limit) ≡ false
unfolding any_longer
All-any_longer limit [] h = ground arith
All-any_longer limit (p ∷ ps) (h, hs) =
    let later = All-any_longer limit ps hs in ground (arith, h, later)

-- What may be written without raw access: a name of words, none of them for internal use, all within
-- their limit, and a name and a value within theirs.
pub record IsAllowed (conf : Conf) (name value : Bytes) : Type 0 where
  pub named : is_nil name ≡ false
  pub public : HasNoInternalWord name
  pub short_name : longer name conf.max_key_length ≡ false
  pub short_value : longer value conf.max_value_size ≡ false
  pub short_words : All (IsWithin conf.max_key_word_length) (split b'.' name)

pub check_var-IsAllowed :
    (conf : Conf) (name value : Bytes)
    → conf.allow_raw_db_access ≡ false
    → check_var conf name value ≡ none
    → IsAllowed conf name value
unfolding check_var
check_var-IsAllowed conf name value raw h = record {
  named = ground arith;
  public = HasNoInternalWord-of_name name (ground arith) (ground arith);
  short_name = ground arith;
  short_value = ground arith;
  short_words = any_longer-All conf.max_key_word_length (split b'.' name) (ground arith);
}

pub IsAllowed-check_var :
    (conf : Conf) (name value : Bytes)
    → conf.allow_raw_db_access ≡ false
    → IsAllowed conf name value
    → check_var conf name value ≡ none
unfolding check_var
IsAllowed-check_var conf name value raw a =
    let (f, k) = first-All (split b'.' name) a.public in
    let starts = first_word_back name f in
    let inner = later_words_back name k in
    let words = All-any_longer conf.max_key_word_length (split b'.' name) a.short_words in
    rw (a.named, raw, starts, inner, a.short_name, a.short_value, words) refl

-- A refused call changes nothing and tells nobody.
abbrev pub IsRefused : {S : Type 0} → S → Outcome S → Type 0
IsRefused s o = (o.error ≢ none) × (o.state ≡ s) × (o.notified ≡ [])

-- The value is written, but under a name with a wildcard, and the change is told.
abbrev pub IsWritten : {S : Type 0} → IStorage S → Conf → Bytes → Bytes → S → Outcome S → Type 0
IsWritten db conf name value s o =
    let key = set_controlled_var_name conf.allow_raw_db_access name in
    (o.error ≡ none)
    × (o.state ≡ (if contains key b'*' then s else db.set key value s))
    × (o.notified ≡ (name, value) ∷ [])

-- Without raw access setVar succeeds exactly if the name, without the characters that are not valid,
-- and the value are allowed and the variable is not locked. If it fails, it leaves the storage as it
-- was and tells nobody; if it succeeds, it sets the value in the storage, but for a name with a
-- wildcard, which leaves the storage as it was, and tells of the name and the value.
pub set_var-iff-IsAllowed :
    {S : Type 0} (db : IStorage S) (conf : Conf) (given value : Bytes) (s : S)
    → conf.allow_raw_db_access ≡ false
    → (((set_var db conf given value s).error ≡ none) ↔ (
        IsAllowed conf (filtered given) value
        × (is_locked db (controlled db conf (filtered given)) s ≡ false)))
      × (IsRefused s (set_var db conf given value s)
          ⊎ IsWritten db conf (filtered given) value s (set_var db conf given value s))
unfolding set_value
set_var-iff-IsAllowed db conf given value s raw = elim (set_var_cases db conf given value s) [
  | inl (a, b, e) ↦ rw e (
    (λ _. (check_var-IsAllowed conf (filtered given) value raw a, b), λ _. refl),
    inr (refl, refl, refl),
  )
  | inr (x, e, why) ↦
      rw e ((λ h. absurd (some-ne-none h), λ h. refused x why h), inl (some-ne-none, refl, refl))
]
  where
    refused :
        (x : SetError)
        → (check_var conf (filtered given) value ≡ some x)
          ⊎ (is_locked db (controlled db conf (filtered given)) s ≡ true)
        → IsAllowed conf (filtered given) value
          × (is_locked db (controlled db conf (filtered given)) s ≡ false)
        → some x ≡ none
    refused x (inl e) (a, l) = sym e ∙ IsAllowed-check_var conf (filtered given) value raw a
    refused x (inr e) (a, l) = absurd (true-ne-false (sym e ∙ l))
