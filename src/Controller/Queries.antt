-- ===== src/Controller/Queries.antt =====
-- controller.go, `TheController`: the operations that the APIs call, which resolve a query to names and
-- then run over these.
pub mod RoundTrip
pub mod Unmatched
use vss.Prelude.{
  ℕ, Bytes, List, [], ◌∷◌, ◌++◌, Bool, true, false, if◌then◌else◌, is_nil, Option, none, some,
}
use vss.Prelude.Int.{ℤ}
use vss.Storage.Interface.{IStorage}
use vss.Controller.SetVar.{Conf, Outcome, set_vars}
use vss.Controller.Reading.{
  Done, get_vars, del_var, get_childs_of_vars, lock_vars, unlock_vars, any_var_locked,
}
use vss.Controller.ClientHelper.{Api}
use vss.Controller.Observing.{observe_vars, stop_observing_vars}
use vss.Controller.Names.{Resolved, names, failed, crashes, unfinished, resolve_var_names}

-- What the resolving of a query may recurse and loop.
pub record Fuel : Type 0 where
  pub increments : ℕ
  pub rounds : ℕ
  pub stars : ℕ
  pub depth : ℕ

-- A call is answered, or it panics, or the fuel runs out.
pub data Asked {ℓ} (A : Type ℓ) : Type ℓ where
  answered : A → Asked A
  panicked endless : Asked A

-- The first argument is the answer to a query that is not resolved.
unfoldable pub ask {ℓ} : {A : Type ℓ} → A → (List Bytes → A) → Resolved → Asked A
ask refused run (names found) = answered (run found)
ask refused run failed = answered refused
ask refused run crashes = panicked
ask refused run unfinished = endless

module _ {S : Type 0} (db : IStorage S) (conf : Conf) (fuel : Fuel) where
  abbrev pub resolved : Bytes → S → Resolved
  resolved query s =
      resolve_var_names db conf.allow_raw_db_access fuel.increments fuel.rounds fuel.stars
        fuel.depth query s

  -- SetVar
  unfoldable pub set_var_query : Bytes → Bytes → S → Asked (Option (Outcome S))
  set_var_query name value s =
      ask none (λ vnames. some (set_vars db conf vnames value s)) (resolved name s)

  -- GetVars
  unfoldable pub get_vars_query : Bytes → S → Asked (Option (List (Bytes × Bytes)))
  get_vars_query name s =
      if is_nil name
      then answered none
      else ask none (λ vnames. some (get_vars db conf.allow_raw_db_access vnames s))
          (resolved name s)

  abbrev pub not_deleted : S → Done S
  not_deleted s = record { ok = false; state = s; notified = [] }

  -- delVar, which resolves its name once more.
  unfoldable pub del_var_named : Bytes → S → Asked (Done S)
  del_var_named name s =
      if is_nil name
      then answered (not_deleted s)
      else ask (not_deleted s) (λ vnames. del_var db conf.allow_raw_db_access vnames s)
          (resolved name s)

  abbrev told_before : List (Bytes × Bytes) → Asked (Done S) → Asked (Done S)
  told_before told (answered done) =
      answered (record { ok = done.ok; state = done.state; notified = told ++ done.notified })
  told_before told panicked = panicked
  told_before told endless = endless

  abbrev go_on : Bool → Done S → Asked (Done S) → Asked (Done S)
  go_on false first rest = answered first
  go_on true first rest = told_before first.notified rest

  abbrev then_delete : Asked (Done S) → (S → Asked (Done S)) → Asked (Done S)
  then_delete (answered first) rest = go_on first.ok first (rest first.state)
  then_delete panicked rest = panicked
  then_delete endless rest = endless

  -- The loop of DelVar.
  unfoldable pub del_vars_named : List Bytes → S → Asked (Done S)
  del_vars_named [] s = answered (record { ok = true; state = s; notified = [] })
  del_vars_named (vname ∷ vnames) s =
      then_delete (del_var_named vname s) (λ s1. del_vars_named vnames s1)

  abbrev flat : Asked (Asked (Done S)) → Asked (Done S)
  flat (answered a) = a
  flat panicked = panicked
  flat endless = endless

  -- DelVar
  unfoldable pub del_var_query : Bytes → S → Asked (Done S)
  del_var_query name s =
      flat (ask (answered (not_deleted s)) (λ vnames. del_vars_named vnames s) (resolved name s))

  -- GetChildsOfVar
  unfoldable pub get_childs_query : Bytes → S → Asked (List Bytes)
  get_childs_query name s =
      ask [] (λ vnames. get_childs_of_vars db conf.allow_raw_db_access vnames s) (resolved name s)

  -- LockVar
  unfoldable pub lock_var_query : Bytes → List (S → S) → S → Asked (Bool × S)
  lock_var_query name pauses s =
      ask (false, s) (λ vnames. lock_vars db conf.allow_raw_db_access vnames pauses s)
        (resolved name s)

  -- UnlockVar
  unfoldable pub unlock_var_query : Bytes → S → Asked (Bool × S)
  unlock_var_query name s =
      ask (false, s) (λ vnames. (true, unlock_vars db conf.allow_raw_db_access vnames s))
        (resolved name s)

  -- IsVarLocked
  unfoldable pub is_var_locked_query : Bytes → S → Asked Bool
  is_var_locked_query name s =
      ask false (λ vnames. any_var_locked db conf.allow_raw_db_access vnames s) (resolved name s)

  -- ObserveVar
  unfoldable pub observe_var_query : Bytes → Bytes → Bytes → Api → ℤ → S → Asked S
  observe_var_query name client_id meta api now s =
      ask s
        (λ vnames.
          observe_vars db conf.allow_raw_db_access conf.max_time_waiting_client_second vnames
            client_id meta api now s)
        (resolved name s)

  -- StopObservingVar
  unfoldable pub stop_observing_query : Bytes → Bytes → Bytes → Api → ℤ → S → Asked S
  stop_observing_query name client_id meta api now s =
      ask s
        (λ vnames.
          stop_observing_vars db conf.allow_raw_db_access conf.max_time_waiting_client_second vnames
            client_id meta api now s)
        (resolved name s)
