-- ===== src/Controller/Observing.antt =====
-- controller.go, `TheController`: clients that observe variables, and what a change makes known. The
-- goroutines of a notification are run one after the other, in the order of the list.
pub mod Parents
pub mod Listed
pub mod RoundTrip
use vss.Prelude.{
  ℕ, zero, suc, Bytes, codes, List, [], ◌∷◌, ◌++◌, Bool, true, false, not, if◌then◌else◌, is_nil,
  length, Option, none, some,
}
use vss.Prelude.Int.{ℤ, le_int}
use vss.Text.{cut_last}
use vss.Storage.Interface.{IStorage}
use vss.Controller.VarHelper.{
  Observation, set_controlled_var_name, register_observation, get_all_observing_clients,
  internal_remove_observing, remove_all_client_observations, get_metadatas_of_a_client,
  is_client_observing,
}
use vss.Controller.ClientHelper.{
  Api, initialize, time_since_last_live_time, is_connected, notify, get_observing_vars,
  get_observing_vars_count, register_new_observation, unregister_observation,
  client_helper_with_apis, remove_client_from_observation_system,
}
use vss.Controller.Reading.{get_var_internal}

abbrev before_dot : Option (Bytes × Bytes) → Option Bytes
before_dot none = none
before_dot (some (before, after)) = some before

-- What stands before the last dot; `none` where lastDotIndex is -1.
unfoldable pub parent_of : Bytes → Option Bytes
parent_of name = before_dot (cut_last b'.' name)

abbrev visit : Option Bytes → (Bytes → List Bytes) → List Bytes
visit none above = []
visit (some parent) above = parent ∷ above parent

-- The parents that notifyParentGenericObservers goes through; each is shorter than its child.
unfoldable pub parents_from : ℕ → Bytes → List Bytes
parents_from zero name = []
parents_from (suc fuel) name = visit (parent_of name) (parents_from fuel)

unfoldable pub parents : Bytes → List Bytes
parents name = parents_from (length name) name

module _ {S : Type 0} (db : IStorage S) (raw : Bool) (max_time : ℤ) where
  abbrev controlled : Bytes → Bytes
  controlled name = set_controlled_var_name raw name

  -- The loop of deleteClient.
  unfoldable pub forget_client_in : List Bytes → Bytes → S → S
  forget_client_in [] client_id s = s
  forget_client_in (curr_var ∷ vars) client_id s =
      forget_client_in vars client_id
        (remove_all_client_observations db (controlled curr_var) client_id s)

  unfoldable pub delete_client : Bytes → S → S
  delete_client client_id s =
      remove_client_from_observation_system db client_id
        (forget_client_in (get_observing_vars db client_id s) client_id s)

  unfoldable pub check_client_live_time : Bytes → Option Api → ℤ → S → S
  check_client_live_time client_id api now s =
      let (connected, s1) = is_connected db client_id api now s in
      if connected
      then s1
      else if le_int max_time (time_since_last_live_time db client_id now s1)
      then delete_client client_id s1
      else s1

  -- Notify, and the check of the live time if the client is not there.
  unfoldable pub send : Bytes → Option Api → List (List Bytes) → ℤ → S → Bool × S
  send client_id api payload now s =
      let (live, s1) = notify db client_id api payload now s in
      if live then (true, s1) else (false, check_client_live_time client_id api now s1)

  -- The current values, each with the metadata of the observation.
  unfoldable pub with_metadata : Bytes → List (List Bytes) → List (List Bytes)
  with_metadata meta [] = []
  with_metadata meta ((name ∷ value ∷ more) ∷ vals) =
      (name ∷ meta ∷ value ∷ []) ∷ with_metadata meta vals
  with_metadata meta (other ∷ vals) = with_metadata meta vals

  unfoldable pub observe_var : Bytes → Bytes → Bytes → Api → ℤ → S → S
  observe_var var_name client_id meta api now s =
      let s1 = initialize db client_id (some api) now s in
      let s2 = (register_observation db (controlled var_name) client_id meta s1).1 in
      let s3 = register_new_observation db client_id var_name now s2 in
      let payload = with_metadata meta (get_var_internal db raw var_name s3) in
      if is_client_observing db (controlled var_name) client_id meta s
      then s
      else (send client_id (some api) payload now s3).1

  -- The loop of ObserveVar over the resolved names.
  unfoldable pub observe_vars : List Bytes → Bytes → Bytes → Api → ℤ → S → S
  observe_vars [] client_id meta api now s = s
  observe_vars (vname ∷ vnames) client_id meta api now s =
      observe_vars vnames client_id meta api now (observe_var vname client_id meta api now s)

  unfoldable pub stop_observing_var : Bytes → Bytes → Bytes → Api → ℤ → S → S
  stop_observing_var var_name client_id meta api now s =
      let s1 = internal_remove_observing db (controlled var_name) client_id meta s in
      let s2 = initialize db client_id (some api) now s1 in
      unregister_observation db client_id var_name now s2

  -- The loop of StopObservingVar over the resolved names.
  unfoldable pub stop_observing_vars : List Bytes → Bytes → Bytes → Api → ℤ → S → S
  stop_observing_vars [] client_id meta api now s = s
  stop_observing_vars (vname ∷ vnames) client_id meta api now s =
      stop_observing_vars vnames client_id meta api now
        (stop_observing_var vname client_id meta api now s)

  -- ClientConnected, for the id that the client has or is given, up to the goroutine that it starts.
  unfoldable pub client_connected : Bytes → Api → ℤ → S → ℤ × S
  client_connected client_id api now s =
      let s1 = initialize db client_id (some api) now s in
      (get_observing_vars_count db client_id s1, s1)

  abbrev one_each : Bytes → Bytes → List Bytes → List (List Bytes)
  one_each name value [] = []
  one_each name value (meta ∷ metas) = (name ∷ meta ∷ value ∷ []) ∷ one_each name value metas

  abbrev at_least_one : List Bytes → List Bytes
  at_least_one [] = [] ∷ []
  at_least_one (meta ∷ metas) = meta ∷ metas

  -- What updateClientAboutObservatingVars tells of a variable and its children.
  unfoldable pub update_payload : Bytes → List (List Bytes) → S → List (List Bytes)
  update_payload client_id [] s = []
  update_payload client_id ((name ∷ value ∷ more) ∷ vals) s =
      one_each name value
        (at_least_one (get_metadatas_of_a_client db (controlled name) client_id s))
      ++ update_payload client_id vals s
  update_payload client_id (other ∷ vals) s = update_payload client_id vals s

  -- The loop of updateClientAboutObservatingVars: it ends when the client is not there.
  unfoldable pub update_client : List Bytes → Bytes → Option Api → ℤ → S → S
  update_client [] client_id api now s = s
  update_client (v ∷ vars) client_id api now s =
      let sent =
        send client_id api (update_payload client_id (get_var_internal db raw v s) s) now s in
      let rest = update_client vars client_id api now sent.1 in if sent.0 then rest else sent.1

  unfoldable pub update_client_about_observing_vars : Bytes → Option Api → ℤ → S → S
  update_client_about_observing_vars client_id api now s =
      update_client (get_observing_vars db client_id s) client_id api now s

  abbrev tell_bound : Bytes → List (List Bytes) → ℤ → S → Option (Api × S) → S
  tell_bound client_id payload now s none =
      delete_client client_id (initialize db client_id none now s)
  tell_bound client_id payload now s (some (api, s1)) = (send client_id (some api) payload now s1).1

  -- One round of notifyClientsAboutVarChange.
  unfoldable pub tell_client : (Bytes → Option Api) → Bytes → Bytes → Observation → ℤ → S → S
  tell_client apis name value obs now s =
      tell_bound obs.client_id ((name ∷ obs.metadata ∷ value ∷ []) ∷ []) now s
        (client_helper_with_apis db obs.client_id apis now s)

  unfoldable pub notify_clients_about_var_change :
      (Bytes → Option Api) → List (Bytes × Observation) → Bytes → Bytes → ℤ → S → S
  notify_clients_about_var_change apis [] name value now s = s
  notify_clients_about_var_change apis ((key, obs) ∷ observations) name value now s =
      notify_clients_about_var_change apis observations name value now
        (tell_client apis name value obs now s)

  -- The observers of one name are told of a change of another.
  unfoldable pub tell_observers_of : (Bytes → Option Api) → Bytes → Bytes → Bytes → ℤ → S → S
  tell_observers_of apis observed changed value now s =
      notify_clients_about_var_change apis (get_all_observing_clients db (controlled observed) s)
        changed value now s

  -- notifyParentGenericObservers, over the parents.
  unfoldable pub tell_parents : (Bytes → Option Api) → List Bytes → Bytes → Bytes → ℤ → S → S
  tell_parents apis [] changed value now s = s
  tell_parents apis (parent ∷ rest) changed value now s =
      tell_parents apis rest changed value now
        (tell_observers_of apis (parent ++ codes ".*") changed value now s)

  unfoldable pub notify_var_modification : (Bytes → Option Api) → Bytes → Bytes → ℤ → S → S
  notify_var_modification apis name value now s =
      let s1 = tell_observers_of apis name name value now s in
      let s2 = tell_parents apis (parents name) name value now s1 in
      tell_observers_of apis (name ++ codes ".*") name value now s2
