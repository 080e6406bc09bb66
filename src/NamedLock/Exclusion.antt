-- ===== src/NamedLock/Exclusion.antt =====
-- namedlock.go, NamedLockRun: no two functions under one name run at the same time.
use vss.Prelude.{
  ℕ, suc, ◌+◌, ◌≤◌, Bytes, List, [], ◌∷◌, ◌++◌, ◌≡◌, refl, Bool, true, false, Option, none, some,
  str_eq, str_eq_iff, eq_of_str_eq, sym, Bool-cases, Option-cases, ◌↔◌, inl, inr, arith,
  if◌then◌else◌,
}
use vss.Prelude.Dict.{find, store, find-store}
use vss.NamedLock.{
  Locks, Running, enters, gives_up, leaves, Reachable, start, step, token_of, acquire_named_lock,
  release_named_lock,
}

-- How many callers are inside their functions under a name.
unfoldable pub holders : Bytes → List (ℕ × Bytes) → ℕ
holders name [] = 0
holders name ((caller, held) ∷ inside) =
    let rest = holders name inside in if str_eq held name then suc rest else rest

abbrev free : Option Bool → ℕ
free o = if token_of o then 1 else 0

-- The token of a name is there, or one caller is inside.
abbrev IsExclusive : Bytes → Running → Type 0
IsExclusive name r = holders name r.inside + free (find str_eq name r.locks) ≡ 1

some_locks : {a b : Locks} → some a ≡ some b → a ≡ b
some_locks h = cc

-- A lock is taken only while its token is there, and then the token of that name alone is gone.
acquire_named_lock-free :
    (name held : Bytes) (locks taken : Locks)
    → acquire_named_lock held locks ≡ some taken
    → (token_of (find str_eq held locks) ≡ true)
      × (free (find str_eq name taken)
          ≡ (if str_eq held name then 0 else free (find str_eq name locks)))
unfolding acquire_named_lock
acquire_named_lock-free name held locks taken e =
    elim (Bool-cases (token_of (find str_eq held locks))) [
      | inl t ↦
          let q : store str_eq held false locks ≡ taken = some_locks (rw t at e) in
          (
            t,
            rw (sym q, find-store str_eq str_eq_iff held name false locks)
                (elim (Bool-cases (str_eq held name)) [ inl c ↦ rw c refl | inr c ↦ rw c refl ]),
          )
      | inr t ↦ let q : ◌≡◌ {A = Option Locks} none (some taken) = rw t at e in cc
    ]

acquired :
    (name held : Bytes) (caller : ℕ) (locks taken : Locks) (inside : List (ℕ × Bytes))
    → acquire_named_lock held locks ≡ some taken
    → IsExclusive name (record { locks = locks; inside = inside })
    → IsExclusive name (record { locks = taken; inside = (caller, held) ∷ inside })
unfolding holders
acquired name held caller locks taken inside e h =
    let (there, gone) = acquire_named_lock-free name held locks taken e in
    elim (Bool-cases (str_eq held name)) [
      | inl c ↦
          let one : free (find str_eq name locks) ≡ 1 =
            rw (sym (eq_of_str_eq held name c), there) refl in
          rw (gone, c) (omega arith)
      | inr c ↦ rw (gone, c) h
    ]

release_named_lock-free :
    (name held : Bytes) (locks : Locks)
    → free (find str_eq name (release_named_lock held locks))
      ≡ (if str_eq held name then 1 else free (find str_eq name locks))
unfolding release_named_lock
release_named_lock-free name held locks = elim (Option-cases (find str_eq held locks)) [
  | inl e ↦ elim (Bool-cases (str_eq held name)) [
    | inl c ↦ rw (e, c, sym (eq_of_str_eq held name c), e) refl
    | inr c ↦ rw (e, c) refl
  ]
  | inr (token, e) ↦
      rw (e, find-store str_eq str_eq_iff held name true locks)
        (elim (Bool-cases (str_eq held name)) [ inl c ↦ rw c refl | inr c ↦ rw c refl ])
]

holders-append_cons :
    (name held : Bytes) (caller : ℕ) (before behind : List (ℕ × Bytes))
    → holders name (before ++ (caller, held) ∷ behind) ≡ (
        if str_eq held name
        then suc (holders name (before ++ behind))
        else holders name (before ++ behind))
unfolding holders
holders-append_cons name held caller [] behind = refl
holders-append_cons name held caller ((other, kept) ∷ before) behind =
    ground (arith, holders-append_cons name held caller before behind)

released :
    (name held : Bytes) (caller : ℕ) (locks : Locks) (before behind : List (ℕ × Bytes))
    → IsExclusive name (record { locks = locks; inside = before ++ (caller, held) ∷ behind })
    → IsExclusive name (record { locks = release_named_lock held locks; inside = before ++ behind })
released name held caller locks before behind h =
    let counted = holders-append_cons name held caller before behind in
    elim (Bool-cases (str_eq held name)) [
      | inl c ↦
          let one : holders name (before ++ (caller, held) ∷ behind)
              ≡ suc (holders name (before ++ behind)) =
            rw (counted, c) refl in
          rw (release_named_lock-free, c) (omega arith)
      | inr c ↦
          let same : holders name (before ++ (caller, held) ∷ behind)
              ≡ holders name (before ++ behind) =
            rw (counted, c) refl in
          rw (release_named_lock-free, c) (omega arith)
    ]

Reachable-IsExclusive : (name : Bytes) (r : Running) → Reachable r → IsExclusive name r
unfolding holders find
Reachable-IsExclusive name _ start = refl
Reachable-IsExclusive name q (step r _ reached (enters caller held taken _ e)) =
    acquired name held caller r.locks taken r.inside e (Reachable-IsExclusive name r reached)
Reachable-IsExclusive name q (step r _ reached (gives_up held _ e)) =
    Reachable-IsExclusive name r reached
Reachable-IsExclusive name q (step _ _ reached (leaves caller held locks before behind)) =
    released name held caller locks before behind (Reachable-IsExclusive name _ reached)

-- In every state that calls of NamedLockRun lead to, at most one caller is inside its function under
-- a name, and whoever asks for the lock waits exactly if one is.
pub Reachable-holders :
    (name : Bytes) (r : Running)
    → Reachable r
    → (holders name r.inside ≤ 1)
      × ((acquire_named_lock name r.locks ≡ none) ↔ (holders name r.inside ≡ 1))
unfolding acquire_named_lock
Reachable-holders name r reached =
    let one = Reachable-IsExclusive name r reached in
    elim (Bool-cases (token_of (find str_eq name r.locks))) [
      | inl t ↦
          let there : free (find str_eq name r.locks) ≡ 1 = rw t refl in
          (omega arith, rw t (λ e. cc, λ e. absurd (omega arith)))
      | inr t ↦
          let gone : free (find str_eq name r.locks) ≡ 0 = rw t refl in
          let inside : holders name r.inside ≡ 1 = omega arith in
          (omega arith, rw t (λ e. inside, λ e. refl))
    ]
