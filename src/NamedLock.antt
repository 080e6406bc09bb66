-- ===== src/NamedLock.antt =====
-- misc/namedlock.go: locks that are known by a name. Each is a channel of capacity 1, which holds a
-- token while the lock is free; a Boolean says whether the token is there.
pub mod Exclusion
use vss.Prelude.{ℕ, Bytes, List, [], ◌∷◌, ◌++◌, ◌≡◌, Bool, true, false, Option, none, some, str_eq}
use vss.Prelude.Dict.{find, store}

-- namedLocks
abbrev pub Locks : Type 0
Locks = List (Bytes × Bool)

-- The channel of a name, which is made with its token where there is none.
abbrev token_of : Option Bool → Bool
token_of none = true
token_of (some token) = token

abbrev take_token : Bool → Bytes → Locks → Option Locks
take_token true name locks = some (store str_eq name false locks)
take_token false name locks = none

-- acquireNamedLock: `none` is a channel without its token, where the caller waits.
unfoldable pub acquire_named_lock : Bytes → Locks → Option Locks
acquire_named_lock name locks = take_token (token_of (find str_eq name locks)) name locks

abbrev put_token : Option Bool → Bytes → Locks → Locks
put_token none name locks = locks
put_token (some token) name locks = store str_eq name true locks

-- releaseNamedLock
unfoldable pub release_named_lock : Bytes → Locks → Locks
release_named_lock name locks = put_token (find str_eq name locks) name locks

-- The calls of NamedLockRun that are inside their function: the caller and the name of the lock.
pub record Running : Type 0 where
  pub locks : Locks
  pub inside : List (ℕ × Bytes)

-- NamedLockRun of the callers, one after the other: a caller enters its function, gives up after its
-- time is over, or leaves its function, whose end releases the lock.
pub data Step : Running → Running → Type 0 where
  enters :
      (caller : ℕ) (name : Bytes) (taken : Locks) (r : Running)
      → acquire_named_lock name r.locks ≡ some taken
      → Step r (record { locks = taken; inside = (caller, name) ∷ r.inside })
  gives_up : (name : Bytes) (r : Running) → acquire_named_lock name r.locks ≡ none → Step r r
  leaves :
      (caller : ℕ) (name : Bytes) (locks : Locks) (before behind : List (ℕ × Bytes))
      → Step
          (record { locks = locks; inside = before ++ (caller, name) ∷ behind })
          (record { locks = release_named_lock name locks; inside = before ++ behind })

pub data Reachable : Running → Type 0 where
  start : Reachable (record { locks = []; inside = [] })
  step : (r q : Running) → Reachable r → Step r q → Reachable q
