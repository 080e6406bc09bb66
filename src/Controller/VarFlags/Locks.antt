-- ===== src/Controller/VarFlags/Locks.antt =====
-- The lock of a variable: its flag "_lock" in the storage.
use vss.Prelude.{
  Bytes, codes, List, [], ◌∷◌, ◌++◌, ◌≡◌, refl, ap, ◌∙◌, Bool, true, false, ◌&&◌, ◌||◌, not, str_eq,
  if◌then◌else◌, is_nil, Bool-cases, inl, inr,
}
use vss.Text.{contains, split}
use vss.Storage.Keys.{dot, key_path, key_path-append, key_path_lacking}
use vss.Storage.Values.{path_eq, is_prefix, path_eq_refl, path_eq-append_one}
use vss.Storage.Interface.{IStorage}
use vss.Controller.VarFlags.{
  flag_name, flag_key, lock_flag, set_flag, get_flag, is_locked, try_lock, lock, unlock,
}

-- The texts that a lock's value may be read as "locked" from.
abbrev pub says_locked : Bytes → Bool
says_locked v = not (str_eq v (codes "0")) && not (is_nil v)

key_path-lock :
    (name : Bytes) → key_path (flag_key name lock_flag) ≡ split dot name ++ codes "_lock" ∷ []
unfolding flag_name
key_path-lock name =
    key_path-append name (codes "_lock") (λ e. cc)
    ∙ ap (λ p. split dot name ++ p) (key_path_lacking (codes "_lock") (unfold contains in refl))

module _ {S : Type 0} (db : IStorage S) where
  is_locked-set_flag :
      (name v : Bytes) (s : S) → is_locked db name (set_flag db name lock_flag v s) ≡ says_locked v
  unfolding is_locked set_flag get_flag
  is_locked-set_flag name v s = rw (db.get-set, path_eq_refl)

  -- The lock is that of the path: another spelling of the name reads the same.
  is_locked-set_flag_eq :
      (name other v : Bytes) (s : S)
      → path_eq (split dot other) (split dot name) ≡ true
      → is_locked db other (set_flag db name lock_flag v s) ≡ says_locked v
  unfolding is_locked set_flag get_flag
  is_locked-set_flag_eq name other v s h =
      rw (db.get-set, key_path-lock name, key_path-lock other, path_eq-append_one, h)

  -- No default and no value read as "locked".
  says_locked_default :
      (k : Bytes) (s : S) → says_locked (db.get k [] s) ≡ says_locked (db.get k (codes "0") s)
  unfolding str_eq
  says_locked_default k s =
      rw (db.get_default k (codes "0") s, db.get_default k [] s)
        (elim (Bool-cases (db.has_value k s)) [ inl e ↦ rw e | inr e ↦ rw e ])

  -- A variable whose name is another path is locked or not as before.
  is_locked-set_flag_ne :
      (name other v : Bytes) (s : S)
      → path_eq (split dot other) (split dot name) ≡ false
      → is_locked db other (set_flag db name lock_flag v s) ≡ is_locked db other s
  unfolding is_locked set_flag get_flag
  is_locked-set_flag_ne name other v s h =
      rw (db.get-set, key_path-lock name, key_path-lock other, path_eq-append_one, h)
        (elim (Bool-cases (
          is_prefix (split dot other ++ codes "_lock" ∷ [])
            (split dot name ++ codes "_lock" ∷ []))) [
              | inl e ↦ rw e (says_locked_default (flag_key other lock_flag) s)
              | inr e ↦ rw e
            ])

  -- A try succeeds exactly if the variable is not locked, and leaves it locked either way.
  pub try_lock_iff :
      (name : Bytes) (s : S)
      → ((try_lock db name s).0 ≡ not (is_locked db name s))
        × (is_locked db name (try_lock db name s).1 ≡ true)
  unfolding try_lock
  try_lock_iff name s = elim (Bool-cases (is_locked db name s)) [
    | inl e ↦ (rw e, rw e e)
    | inr e ↦ (
      rw (e, is_locked-set_flag) (unfold str_eq in refl),
      rw (e, is_locked-set_flag) (unfold str_eq in refl),
    )
  ]

  -- After Unlock the variable is not locked, whatever its lock held before, and the lock of a
  -- variable of another path is as it was.
  pub is_locked-unlock :
      (name other : Bytes) (s : S)
      → is_locked db other (unlock db name s)
        ≡ (if path_eq (split dot other) (split dot name) then false else is_locked db other s)
  unfolding unlock
  is_locked-unlock name other s = elim (Bool-cases (path_eq (split dot other) (split dot name))) [
    | inl e ↦ rw e (is_locked-set_flag_eq name other (codes "0") s e ∙ (unfold str_eq in refl))
    | inr e ↦ rw e (is_locked-set_flag_ne name other (codes "0") s e)
  ]

  try_lock_locked :
      (name : Bytes) (s : S) → is_locked db name s ≡ true → try_lock db name s ≡ (false, s)
  unfolding try_lock
  try_lock_locked name s e = rw e

  -- The variable is free at the first try or after one of the pauses.
  abbrev pub ever_free : Bytes → List (S → S) → S → Bool
  ever_free name [] s = not (is_locked db name s)
  ever_free name (pause ∷ pauses) s = not (is_locked db name s) || ever_free name pauses (pause s)

  -- Lock succeeds exactly if the variable is free at one of its tries, and else times out; either
  -- way the variable is locked when it returns.
  pub lock_iff :
      (name : Bytes) (pauses : List (S → S)) (s : S)
      → ((lock db name pauses s).0 ≡ ever_free name pauses s)
        × (is_locked db name (lock db name pauses s).1 ≡ true)
  unfolding lock
  lock_iff name [] s = try_lock_iff name s
  lock_iff name (pause ∷ pauses) s = elim (Bool-cases (is_locked db name s)) [
    | inl e ↦ rw (try_lock_locked name s e, e) (lock_iff name pauses (pause s))
    | inr e ↦
        let (free, after) = try_lock_iff name s in
        let won : (try_lock db name s).0 ≡ true = free ∙ rw e refl in (rw (won, e), rw won after)
  ]
