-- ===== src/Controller/Reading/Deleting.antt =====
-- What DelVar leaves, and what the locks of several variables say.
use vss.Prelude.{
  Bytes, List, [], ◌∷◌, ◌≡◌, ◌⊎◌, ◌≢◌, sym, ap, ◌∙◌, refl, subst, Bool, true, false, is_nil, All,
  Bool-cases, inl, inr, arith,
}
use vss.Storage.Keys.{key_path}
use vss.Storage.Values.{path_eq, path_eq_refl}
use vss.Storage.Interface.{IStorage}
use vss.Controller.VarHelper.{set_controlled_var_name}
use vss.Controller.VarFlags.{get_value, delete_value, unlock, is_locked}
use vss.Controller.VarFlags.Locks.{is_locked-unlock}
use vss.Controller.Reading.{
  get_var, get_vars, delete_each, del_one, del_var, del_vars, controlled, unlock_vars,
  any_var_locked,
}

nil_of_is_nil : (v : Bytes) → is_nil v ≡ true → v ≡ []
nil_of_is_nil [] h = refl
nil_of_is_nil (c ∷ v) h = cc

false-ne-true : false ≢ true
false-ne-true h = cc

module _ {S : Type 0} (db : IStorage S) where
  get_value-delete_value :
      (name : Bytes) (s : S) → is_nil name ≡ false → get_value db name (delete_value db name s) ≡ []
  unfolding get_value delete_value
  get_value-delete_value name s h =
      rw (db.get-delete_value name name [] false s h, path_eq_refl) (ground arith)

  get_value-delete_value_ne :
      (name other : Bytes) (s : S)
      → is_nil name ≡ false
      → path_eq (key_path other) (key_path name) ≡ false
      → get_value db other (delete_value db name s) ≡ get_value db other s
  unfolding get_value delete_value
  get_value-delete_value_ne name other s h k =
      rw (db.get-delete_value other name [] false s h, k) refl

  get_value-delete_value_kept :
      (name other : Bytes) (s : S)
      → is_nil name ≡ false
      → get_value db other s ≡ []
      → get_value db other (delete_value db name s) ≡ []
  unfolding get_value delete_value
  get_value-delete_value_kept name other s h k =
      rw (db.get-delete_value other name [] false s h) (ground arith)

  module _ (raw : Bool) where
    controlled_name : (name : Bytes) → is_nil name ≡ false → is_nil (controlled db raw name) ≡ false
    unfolding set_controlled_var_name
    controlled_name [] h = cc
    controlled_name (c ∷ name) h = ground arith

    -- delVar of one name fails and changes nothing if the name is empty or the variable has no value,
    -- and else deletes it.
    del_one_cases :
        (name : Bytes) (s : S)
        → (del_one db raw name s ≡ record { ok = false; state = s; notified = [] })
          ⊎ ((is_nil (controlled db raw name) ≡ false)
              × (del_one db raw name s ≡ record {
                ok = true;
                state = delete_value db (controlled db raw name) s;
                notified = (name, []) ∷ [];
              }))
    unfolding del_one del_var get_vars get_var delete_each
    del_one_cases name s = elim (Bool-cases (is_nil name)) [
      | inl e ↦ inl (rw e refl)
      | inr e ↦ elim (Bool-cases (is_nil (get_value db (controlled db raw name) s))) [
        | inl v ↦ inl (rw (e, v) refl)
        | inr v ↦ inr (controlled_name name e, rw (e, v) refl)
      ]
    ]

    get_value-del_one :
        (name : Bytes) (s : S)
        → (del_one db raw name s).ok ≡ true
        → get_value db (controlled db raw name) (del_one db raw name s).state ≡ []
    get_value-del_one name s ok = elim (del_one_cases name s) [
      | inl e ↦ absurd (false-ne-true (sym (ap (λ d. d.ok) e) ∙ ok))
      | inr (h, e) ↦ rw e (get_value-delete_value (controlled db raw name) s h)
    ]

    get_value-del_one_kept :
        (name other : Bytes) (s : S)
        → get_value db other s ≡ []
        → get_value db other (del_one db raw name s).state ≡ []
    get_value-del_one_kept name other s k = elim (del_one_cases name s) [
      | inl e ↦ rw e k
      | inr (h, e) ↦ rw e (get_value-delete_value_kept (controlled db raw name) other s h k)
    ]

    get_value-del_one_ne :
        (name other : Bytes) (s : S)
        → path_eq (key_path other) (key_path (controlled db raw name)) ≡ false
        → get_value db other (del_one db raw name s).state ≡ get_value db other s
    get_value-del_one_ne name other s k = elim (del_one_cases name s) [
      | inl e ↦ rw e
      | inr (h, e) ↦ rw e (get_value-delete_value_ne (controlled db raw name) other s h k)
    ]

    -- One round of the loop.
    del_vars-cons :
        (name : Bytes) (names : List Bytes) (s : S)
        → (((del_one db raw name s).ok ≡ true)
            × ((del_vars db raw (name ∷ names) s).ok
                ≡ (del_vars db raw names (del_one db raw name s).state).ok)
            × ((del_vars db raw (name ∷ names) s).state
                ≡ (del_vars db raw names (del_one db raw name s).state).state))
          ⊎ (((del_vars db raw (name ∷ names) s).ok ≡ false)
              × ((del_vars db raw (name ∷ names) s).state ≡ (del_one db raw name s).state))
    unfolding del_vars
    del_vars-cons name names s = elim (Bool-cases (del_one db raw name s).ok) [
      | inl e ↦ inl (e, rw e refl, rw e refl)
      | inr e ↦ inr (rw e refl, rw e refl)
    ]

    get_value-del_vars_kept :
        (names : List Bytes) (other : Bytes) (s : S)
        → get_value db other s ≡ []
        → get_value db other (del_vars db raw names s).state ≡ []
    get_value-del_vars_kept [] other s k = unfold del_vars in k
    get_value-del_vars_kept (name ∷ names) other s k =
        let once = get_value-del_one_kept name other s k in
        elim (del_vars-cons name names s) [
          | inl (o, a, b) ↦ rw b (get_value-del_vars_kept names other _ once)
          | inr (a, b) ↦ rw b once
        ]

    -- When DelVar reports success, none of the variables that it was given has a value.
    pub get_value-del_vars :
        (names : List Bytes) (s : S)
        → (del_vars db raw names s).ok ≡ true
        → All (λ n. get_value db (controlled db raw n) (del_vars db raw names s).state ≡ []) names
    get_value-del_vars [] s ok = tt
    get_value-del_vars (name ∷ names) s ok = elim (del_vars-cons name names s) [
      | inl (o, a, b) ↦
          subst (λ t. All (λ n. get_value db (controlled db raw n) t ≡ []) (name ∷ names)) (sym b)
            (
              get_value-del_vars_kept names (controlled db raw name) _ (get_value-del_one name s o),
              get_value-del_vars names _ (sym a ∙ ok),
            )
      | inr (a, b) ↦ cc
    ]

    -- DelVar, whether it succeeds or stops at an error, leaves every variable whose path is none of
    -- those that it was given as it was.
    pub get_value-del_vars_ne :
        (names : List Bytes) (other : Bytes) (s : S)
        → All (λ n. path_eq (key_path other) (key_path (controlled db raw n)) ≡ false) names
        → get_value db other (del_vars db raw names s).state ≡ get_value db other s
    get_value-del_vars_ne [] other s ks = unfold del_vars in refl
    get_value-del_vars_ne (name ∷ names) other s (k, ks) =
        let once = get_value-del_one_ne name other s k in
        elim (del_vars-cons name names s) [
          | inl (o, a, b) ↦ rw b (get_value-del_vars_ne names other _ ks ∙ once)
          | inr (a, b) ↦ rw b once
        ]

    is_locked-unlock_kept :
        (name other : Bytes) (s : S)
        → is_locked db other s ≡ false
        → is_locked db other (unlock db name s) ≡ false
    is_locked-unlock_kept name other s h = rw (is_locked-unlock db name other s) (ground arith)

    is_locked-unlock_vars_kept :
        (names : List Bytes) (other : Bytes) (s : S)
        → is_locked db other s ≡ false
        → is_locked db other (unlock_vars db raw names s) ≡ false
    unfolding unlock_vars
    is_locked-unlock_vars_kept [] other s h = h
    is_locked-unlock_vars_kept (name ∷ names) other s h =
        is_locked-unlock_vars_kept names other _
          (is_locked-unlock_kept (controlled db raw name) other s h)

    any_locked-All :
        (names : List Bytes) (s : S)
        → All (λ n. is_locked db (controlled db raw n) s ≡ false) names
        → any_var_locked db raw names s ≡ false
    unfolding any_var_locked
    any_locked-All [] s h = refl
    any_locked-All (name ∷ names) s (h, hs) = rw (h, any_locked-All names s hs) refl

    is_locked-unlock_vars :
        (names : List Bytes) (s : S)
        → All (λ n. is_locked db (controlled db raw n) (unlock_vars db raw names s) ≡ false) names
    unfolding unlock_vars
    is_locked-unlock_vars [] s = tt
    is_locked-unlock_vars (name ∷ names) s = (
      is_locked-unlock_vars_kept names (controlled db raw name) _ (
          rw (is_locked-unlock db (controlled db raw name) (controlled db raw name) s, path_eq_refl)
            refl),
      is_locked-unlock_vars names _,
    )

    -- After UnlockVar, IsVarLocked of the same names says that none of them is locked, whatever
    -- their locks held before.
    pub any_var_locked-unlock_vars :
        (names : List Bytes) (s : S)
        → any_var_locked db raw names (unlock_vars db raw names s) ≡ false
    any_var_locked-unlock_vars names s = any_locked-All names _ (is_locked-unlock_vars names s)
