-- ===== src/Controller/ClientHelper.antt =====
-- controller_clienthelper.go, `ClientHelper`: the clients' list, and what a client observes, kept in
-- the storage below "internal.clients". What runs under the named lock is one step.
-- The API and the clock are arguments: `now` is what currentTimeSeconds returns.
pub mod Listing
pub mod Observing
pub mod Vars
pub mod Unregister
use vss.Prelude.{
  ℕ, zero, suc, ◌-◌, Bytes, codes, List, [], ◌∷◌, ◌++◌, Bool, true, false, ◌&&◌, ◌||◌, not, str_eq,
  ltb, ◌==◌, if◌then◌else◌, is_nil, length, Option, none, some,
}
use vss.Prelude.Int.{ℤ, pos, negsuc, incr, decr, rounds, sub}
use vss.Text.{contains_text, has_prefix}
use vss.DynamicVar.{itoa, format, get_int64}
use vss.Storage.Interface.{IStorage}

-- services/apis/IApi.go
pub record Api : Type 0 where
  pub api_id : Bytes
  pub check_alive : Bytes → Bool
  pub notify_client : Bytes → List (List Bytes) → Bool

abbrev pub client_base : Bytes → Bytes
client_base client_id = codes "internal.clients.byId." ++ client_id

abbrev pub clients_count_key : Bytes
clients_count_key = codes "internal.clients.list.count"

abbrev pub clients_place_key : Bytes → Bytes
clients_place_key i = codes "internal.clients.list." ++ i

abbrev pub api_id_key : Bytes → Bytes
api_id_key client_id = client_base client_id ++ codes ".apiId"

abbrev pub live_time_key : Bytes → Bytes
live_time_key client_id = client_base client_id ++ codes ".lastLiveTime"

abbrev pub observing_count_key : Bytes → Bytes
observing_count_key client_id = client_base client_id ++ codes ".observing.count"

abbrev pub observing_place_key : Bytes → Bytes → Bytes
observing_place_key client_id i = client_base client_id ++ (codes ".observing." ++ i)

abbrev drop_five : Bytes → Bytes
drop_five (a ∷ b ∷ c ∷ d ∷ e ∷ s) = s
drop_five s = s

-- `if len(curr) > 5 && strings.HasPrefix(curr, "vars.") { curr = curr[5:] }`
unfoldable pub without_vars : Bytes → Bytes
without_vars curr =
    if ltb 5 (length curr) && has_prefix curr (codes "vars.") then drop_five curr else curr

module _ {S : Type 0} (db : IStorage S) (client_id : Bytes) where
  open db use {set, get, has_value, get_child_names, delete_value}

  unfoldable pub update_live_time : ℤ → S → S
  update_live_time now s = set (live_time_key client_id) (itoa now) s

  unfoldable pub get_last_live_time : S → ℤ
  get_last_live_time s = get_int64 (get (live_time_key client_id) (itoa (pos 0)) s)

  unfoldable pub time_since_last_live_time : ℤ → S → ℤ
  time_since_last_live_time now s = sub now (get_last_live_time s)

  abbrev set_api_id : Option Api → S → S
  set_api_id none s = s
  set_api_id (some api) s = set (api_id_key client_id) api.api_id s

  -- A client that is not known yet gets the next place of the list.
  abbrev add_client : S → S
  add_client s =
      let cnt = get_int64 (get clients_count_key (itoa (pos 0)) s) in
      let s1 = set clients_count_key (itoa (incr cnt)) s in
      let s2 = set (clients_place_key (itoa cnt)) client_id s1 in
      set (client_base client_id) (itoa cnt) s2

  -- NewControllerClientHelper, initialize
  unfoldable pub initialize : Option Api → ℤ → S → S
  initialize api now s =
      let s1 = if has_value (client_base client_id) s then s else add_client s in
      update_live_time now (set_api_id api s1)

  -- SetControlledClientID, for the client that it is given.
  unfoldable pub set_controlled_client_id : Option Api → Bytes → S → S
  set_controlled_client_id (some api) api_id s = set_api_id (some api) s
  set_controlled_client_id none api_id s =
      if is_nil api_id then s else set (api_id_key client_id) api_id s

  unfoldable pub is_connected : Option Api → ℤ → S → Bool × S
  is_connected none now s = (false, s)
  is_connected (some api) now s =
      if api.check_alive client_id then (true, update_live_time now s) else (false, s)

  -- Notify: `true` is "LIVE" and `false` is "DISCONNECTED".
  unfoldable pub notify : Option Api → List (List Bytes) → ℤ → S → Bool × S
  notify none vars_and_values now s = (false, s)
  notify (some api) vars_and_values now s =
      if api.notify_client client_id vars_and_values
      then (true, update_live_time now s)
      else (false, s)

  unfoldable pub get_api_id : S → Bytes
  get_api_id s = get (api_id_key client_id) [] s

  unfoldable pub get_observing_vars_count : S → ℤ
  get_observing_vars_count s = get_int64 (get (observing_count_key client_id) (itoa (pos 0)) s)

  unfoldable pub observed_at : ℕ → S → Bytes
  observed_at i s = get (observing_place_key client_id (format i)) [] s

  -- The loop of GetObservingVars over the child names.
  unfoldable pub observing_vars_in : List Bytes → S → List Bytes
  observing_vars_in [] s = []
  observing_vars_in (c ∷ rest) s =
      let vars = observing_vars_in rest s in
      if contains_text c (codes "count") || contains_text c (codes "size")
      then vars
      else without_vars (get (observing_place_key client_id c) [] s) ∷ vars

  unfoldable pub get_observing_vars : S → List Bytes
  get_observing_vars s =
      observing_vars_in (get_child_names (client_base client_id ++ codes ".observing") s) s

  -- What RegisterNewObservation does at the count that it read.
  unfoldable pub register_at : ℤ → Bytes → S → S
  register_at curr var_name s =
      let s1 = set (observing_count_key client_id) (itoa (incr curr)) s in
      set (observing_place_key client_id (itoa curr)) var_name s1

  unfoldable pub register_new_observation : Bytes → ℤ → S → S
  register_new_observation var_name now s =
      let s0 = update_live_time now s in
      register_at (get_observing_vars_count s0) (codes "vars." ++ var_name) s0

  -- findVarIndexOnObservingVars: `left` places are left to look at, from place `i` on.
  unfoldable pub find_var_from : ℕ → ℕ → Bytes → S → Option ℕ
  find_var_from zero i var_name s = none
  find_var_from (suc left) i var_name s =
      let later = find_var_from left (suc i) var_name s in
      if str_eq (observed_at i s) var_name then some i else later

  unfoldable pub find_var_index_on_observing_vars : Bytes → S → Option ℕ
  find_var_index_on_observing_vars var_name s =
      find_var_from (rounds (get_observing_vars_count s)) 0 var_name s

  -- The loop that moves the variables c+1, c+2, … one place down.
  unfoldable pub shift_vars : ℕ → ℕ → S → S
  shift_vars zero c s = s
  shift_vars (suc left) c s =
      shift_vars left (suc c)
        (set (observing_place_key client_id (format c)) (observed_at (suc c) s) s)

  -- What UnregisterObservation does with the place that it found, of `curr` places.
  unfoldable pub unregister_found : Option ℕ → ℕ → S → S
  unregister_found none curr s = s
  unregister_found (some idx) curr s =
      let s1 = shift_vars (curr - 1 - idx) idx s in
      let s2 = delete_value (observing_place_key client_id (format (curr - 1))) false s1 in
      set (observing_count_key client_id) (itoa (decr (pos curr))) s2

  unfoldable pub unregister_observation : Bytes → ℤ → S → S
  unregister_observation var_name now s =
      let s0 = update_live_time now s in
      unregister_found (find_var_index_on_observing_vars (codes "vars." ++ var_name) s0)
        (rounds (get_observing_vars_count s0)) s0

  -- The loop that moves the clients c+1, c+2, … one place down.
  unfoldable pub shift_clients : ℕ → ℕ → S → S
  shift_clients zero c s = s
  shift_clients (suc left) c s =
      shift_clients left (suc c)
        (set (clients_place_key (format c)) (get (clients_place_key (format (suc c))) [] s) s)

  abbrev remove_place : ℤ → S → S
  remove_place (negsuc _) s = s
  remove_place (pos client_index) s =
      let current_count = get_int64 (get clients_count_key (itoa (pos 0)) s) in
      let s1 = shift_clients (rounds (decr current_count) - client_index) client_index s in
      let s2 = delete_value (clients_place_key (itoa (decr current_count))) false s1 in
      set clients_count_key (itoa (decr current_count)) s2

  unfoldable pub remove_client_from_observation_system : S → S
  remove_client_from_observation_system s =
      let client_index = get_int64 (get (client_base client_id) (itoa (negsuc 0)) s) in
      delete_value (client_base client_id) true (remove_place client_index s)

  abbrev bound : Option Api → ℤ → S → Option (Api × S)
  bound none now s = none
  bound (some api) now s = some (api, initialize (some api) now s)

  -- NewControllerClientHelperWithApis: the API that the client is bound to, and the state; `none` is
  -- the error API_NOT_FOUND.
  unfoldable pub client_helper_with_apis : (Bytes → Option Api) → ℤ → S → Option (Api × S)
  client_helper_with_apis apis now s =
      let api_id = get_api_id s in if is_nil api_id then none else bound (apis api_id) now s
