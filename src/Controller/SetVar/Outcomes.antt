-- ===== src/Controller/SetVar/Outcomes.antt =====
-- What setVar and SetVar leave, on every branch.
use vss.Prelude.{
  Bytes, List, [], ◌∷◌, ◌≡◌, ◌⊎◌, subst, ◌≢◌, sym, refl, ap, ◌∙◌, true, false, none, some, All,
  Bool-cases, inl, inr, arith, Option-cases,
}
use vss.Text.{contains}
use vss.Storage.Keys.{key_path}
use vss.Storage.Values.{path_eq, path_eq_refl}
use vss.Storage.Interface.{IStorage}
use vss.Controller.VarFlags.{is_locked, set_value, get_value}
use vss.Controller.SetVar.{
  Conf, SetError, is_locked_error, get_only, valid_chars, check_var, set_var, set_vars, controlled,
}

-- The name that setVar works on.
abbrev pub filtered : Bytes → Bytes
filtered given = get_only given valid_chars

pub some-ne-none : {e : SetError} → some e ≢ none
some-ne-none h = cc

module _ {S : Type 0} (db : IStorage S) (conf : Conf) where
  -- setVar succeeds exactly if the filtered name and the value pass the checks and the variable is
  -- not locked; it then writes the value and tells of one change, and else changes nothing and
  -- tells of none.
  pub set_var_cases :
      (given value : Bytes) (s : S)
      → ((check_var conf (filtered given) value ≡ none)
          × (is_locked db (controlled db conf (filtered given)) s ≡ false)
          × (set_var db conf given value s ≡ record {
            error = none;
            state = set_value db (controlled db conf (filtered given)) value s;
            notified = (filtered given, value) ∷ [];
          }))
        ⊎ ((e : SetError) × (set_var db conf given value s
              ≡ record { error = some e; state = s; notified = [] })
            × ((check_var conf (filtered given) value ≡ some e)
                ⊎ (is_locked db (controlled db conf (filtered given)) s ≡ true)))
  unfolding set_var
  set_var_cases given value s = elim (Option-cases (check_var conf (filtered given) value)) [
    | inl e ↦ elim (Bool-cases (is_locked db (controlled db conf (filtered given)) s)) [
      | inl l ↦ inr (is_locked_error, rw (e, l) refl, inr l)
      | inr l ↦ inl (e, l, rw (e, l) refl)
    ]
    | inr (x, e) ↦ inr (x, rw e refl, inl e)
  ]

  -- A text holds no wildcard.
  abbrev pub HasNoStar : Bytes → Type 0
  HasNoStar given = contains (controlled db conf (filtered given)) b'*' ≡ false

  abbrev pub written_name : Bytes → Bytes
  written_name given = controlled db conf (filtered given)

  pub get_value-set_value :
      (name value : Bytes) (s : S)
      → contains name b'*' ≡ false
      → get_value db name (set_value db name value s) ≡ value
  unfolding get_value set_value
  get_value-set_value name value s h = rw (h, db.get-set, path_eq_refl) refl

  get_value-set_value_kept :
      (name other value : Bytes) (s : S)
      → get_value db other s ≡ value
      → get_value db other (set_value db name value s) ≡ value
  unfolding get_value set_value
  get_value-set_value_kept name other value s h = elim (Bool-cases (contains name b'*')) [
    | inl e ↦ rw e h
    | inr e ↦ rw (e, db.get-set) (ground arith)
  ]

  get_value-set_value_ne :
      (name other value : Bytes) (s : S)
      → path_eq (key_path other) (key_path name) ≡ false
      → get_value db other (set_value db name value s) ≡ get_value db other s
  unfolding get_value set_value
  get_value-set_value_ne name other value s h = elim (Bool-cases (contains name b'*')) [
    | inl e ↦ rw e
    | inr e ↦ rw (e, db.get-set, h) (ground arith)
  ]

  -- Both outcomes of setVar, seen from the variable at a name that is read.
  get_value-set_var :
      (given value : Bytes) (s : S)
      → (set_var db conf given value s).error ≡ none
      → HasNoStar given
      → get_value db (written_name given) (set_var db conf given value s).state ≡ value
  get_value-set_var given value s ok plain = elim (set_var_cases given value s) [
    | inl (a, b, e) ↦ rw e (get_value-set_value (written_name given) value s plain)
    | inr (x, e, why) ↦ absurd (some-ne-none (sym (ap (λ o. o.error) e) ∙ ok))
  ]

  get_value-set_var_kept :
      (given other value : Bytes) (s : S)
      → get_value db other s ≡ value
      → get_value db other (set_var db conf given value s).state ≡ value
  get_value-set_var_kept given other value s h = elim (set_var_cases given value s) [
    | inl (a, b, e) ↦ rw e (get_value-set_value_kept (written_name given) other value s h)
    | inr (x, e, why) ↦ rw e h
  ]

  get_value-set_var_ne :
      (given other value : Bytes) (s : S)
      → path_eq (key_path other) (key_path (written_name given)) ≡ false
      → get_value db other (set_var db conf given value s).state ≡ get_value db other s
  get_value-set_var_ne given other value s h = elim (set_var_cases given value s) [
    | inl (a, b, e) ↦ rw e (get_value-set_value_ne (written_name given) other value s h)
    | inr (x, e, why) ↦ rw e
  ]

  -- One round of the loop.
  set_vars-cons :
      (given : Bytes) (names : List Bytes) (value : Bytes) (s : S)
      → (((set_var db conf given value s).error ≡ none)
          × ((set_vars db conf (given ∷ names) value s).error
              ≡ (set_vars db conf names value (set_var db conf given value s).state).error)
          × ((set_vars db conf (given ∷ names) value s).state
              ≡ (set_vars db conf names value (set_var db conf given value s).state).state))
        ⊎ (((set_vars db conf (given ∷ names) value s).error ≢ none)
            × ((set_vars db conf (given ∷ names) value s).state
                ≡ (set_var db conf given value s).state))
  unfolding set_vars
  set_vars-cons given names value s = elim (Option-cases (set_var db conf given value s).error) [
    | inl e ↦ inl (e, rw e refl, rw e refl)
    | inr (x, e) ↦ inr (rw e (λ h. some-ne-none h), rw e refl)
  ]

  get_value-set_vars_kept :
      (names : List Bytes) (other value : Bytes) (s : S)
      → get_value db other s ≡ value
      → get_value db other (set_vars db conf names value s).state ≡ value
  get_value-set_vars_kept [] other value s h = unfold set_vars in h
  get_value-set_vars_kept (given ∷ names) other value s h =
      let once = get_value-set_var_kept given other value s h in
      elim (set_vars-cons given names value s) [
        | inl (ok, a, b) ↦ rw b (get_value-set_vars_kept names other value _ once)
        | inr (bad, b) ↦ rw b once
      ]

  -- When SetVar reports success, every variable that it was given has the value, whatever other
  -- name in the list is for the same variable; the names hold no wildcard.
  pub get_value-set_vars :
      (names : List Bytes) (value : Bytes) (s : S)
      → All HasNoStar names
      → (set_vars db conf names value s).error ≡ none
      → All
          (λ n. get_value db (written_name n) (set_vars db conf names value s).state ≡ value)
          names
  get_value-set_vars [] value s plain ok = tt
  get_value-set_vars (given ∷ names) value s (p, plain) ok =
      elim (set_vars-cons given names value s) [
        | inl (first, a, b) ↦
            subst (λ t. All (λ n. get_value db (written_name n) t ≡ value) (given ∷ names)) (sym b)
              (
                get_value-set_vars_kept names (written_name given) value _
                    (get_value-set_var given value s first p),
                get_value-set_vars names value _ plain (sym a ∙ ok),
              )
        | inr (bad, b) ↦ absurd (bad ok)
      ]

  -- SetVar, whether it succeeds or stops at an error, leaves every variable whose path is none of
  -- those that it was given as it was.
  pub get_value-set_vars_ne :
      (names : List Bytes) (other value : Bytes) (s : S)
      → All (λ n. path_eq (key_path other) (key_path (written_name n)) ≡ false) names
      → get_value db other (set_vars db conf names value s).state ≡ get_value db other s
  get_value-set_vars_ne [] other value s h = unfold set_vars in refl
  get_value-set_vars_ne (given ∷ names) other value s (h, hs) =
      let once = get_value-set_var_ne given other value s h in
      elim (set_vars-cons given names value s) [
        | inl (ok, a, b) ↦ rw b (get_value-set_vars_ne names other value _ hs ∙ once)
        | inr (bad, b) ↦ rw b once
      ]
