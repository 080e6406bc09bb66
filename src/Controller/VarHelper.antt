-- ===== src/Controller/VarHelper.antt =====
-- controller_varhelper.go, `VarHelper`: a variable's value, flags, lock and observers, kept in the
-- storage below the variable's name. `name` is the full name that SetControlledVarName gives.
-- What runs inside `runLocked` is one step; the named locks themselves are not modelled.
pub mod Keys
pub mod Frame
pub mod Listing
pub mod Observers
pub mod Removal
use vss.Prelude.{
  ℕ, zero, suc, ◌-◌, Bytes, codes, List, [], ◌∷◌, ◌++◌, Bool, true, false, ◌&&◌, ◌||◌, not, str_eq,
  ◌==◌, if◌then◌else◌, is_nil, Option, none, some,
}
use vss.Prelude.Int.{ℤ, pos, incr, decr, rounds}
use vss.Text.{contains, cut, has_prefix}
use vss.DynamicVar.{itoa, atoi, format, get_int64}
use vss.Storage.Interface.{IStorage}

abbrev vars_prefix : Bytes
vars_prefix = codes "vars."

-- SetControlledVarName
unfoldable pub set_controlled_var_name : Bool → Bytes → Bytes
unfolding has_prefix
set_controlled_var_name allow_raw_db_access vname =
    if allow_raw_db_access
    then vname
    else if has_prefix vname vars_prefix
    then vname
    else vars_prefix ++ vname

-- One entry of the observers' list: the client and the metadata that it gave.
pub record Observation : Type 0 where
  pub client_id : Bytes
  pub metadata : Bytes

abbrev pub list_count_key : Bytes → Bytes
list_count_key name = name ++ codes "._observers.list.count"

abbrev pub list_node_key : Bytes → Bytes → Bytes
list_node_key name i = name ++ (codes "._observers.list." ++ i)

abbrev pub list_client_key : Bytes → Bytes → Bytes
list_client_key name i = name ++ (codes "._observers.list." ++ (i ++ codes ".clientId"))

abbrev pub list_metadata_key : Bytes → Bytes → Bytes
list_metadata_key name i = name ++ (codes "._observers.list." ++ (i ++ codes ".metadata"))

abbrev pub by_id_key : Bytes → Bytes → Bytes → Bytes
by_id_key name client_id metadata =
    name ++ (codes "._observers.byId." ++ (client_id ++ (codes ".byMetadata." ++ metadata)))

module _ {S : Type 0} (db : IStorage S) (name : Bytes) where
  open db use {set, get, has_value, get_child_names, delete_value}

  unfoldable pub list_count : S → ℤ
  list_count s = get_int64 (get (list_count_key name) (itoa (pos 0)) s)

  -- The two reads of a round of each loop over the list.
  unfoldable pub list_entry : Bytes → S → Observation
  list_entry i s = record {
    client_id = get (list_client_key name i) [] s;
    metadata = get (list_metadata_key name i) [] s;
  }

  -- RegisterObservation: the new observation's id, and the state.
  unfoldable pub register_observation : Bytes → Bytes → S → Bytes × S
  register_observation client_id metadata s =
      let cnt = list_count s in
      let s1 = set (list_client_key name (itoa cnt)) client_id s in
      let s2 = set (list_metadata_key name (itoa cnt)) metadata s1 in
      let s3 = set (by_id_key name client_id metadata) (itoa cnt) s2 in
      let s4 = set (list_count_key name) (itoa (incr cnt)) s3 in (itoa cnt, s4)

  -- The loop `for i := 0; i < cnt; i++` of GetAllObservingClients.
  unfoldable pub collect_observations : ℕ → ℕ → S → List (Bytes × Observation)
  collect_observations zero i s = []
  collect_observations (suc left) i s =
      let rest = collect_observations left (suc i) s in
      let entry = list_entry (format i) s in
      if is_nil entry.client_id then rest else (format i, entry) ∷ rest

  -- GetAllObservingClients, GetAllObservations: the map's entries, each id once.
  unfoldable pub get_all_observing_clients : S → List (Bytes × Observation)
  get_all_observing_clients s = collect_observations (rounds (list_count s)) 0 s

  -- One round of the loop that moves the entries j+1, j+2, … one place down.
  unfoldable pub shift_step : ℕ → S → S
  shift_step j s =
      let next = list_entry (format (suc j)) s in
      let s1 = set (list_client_key name (format j)) next.client_id s in
      let s2 = set (list_metadata_key name (format j)) next.metadata s1 in
      set (by_id_key name next.client_id next.metadata) (itoa (pos j)) s2

  unfoldable pub shift_left : ℕ → ℕ → S → S
  shift_left zero j s = s
  shift_left (suc left) j s = shift_left left (suc j) (shift_step j s)

  -- What internalRemoveObserving does where it finds the entry, at place i of `count`.
  unfoldable pub remove_at : ℕ → ℕ → Bytes → Bytes → S → S
  remove_at count i client_id metadata s =
      let s1 = shift_left (count - 1 - i) i s in
      let s2 = delete_value (list_node_key name (format (count - 1))) true s1 in
      let s3 = set (list_count_key name) (itoa (decr (pos count))) s2 in
      delete_value (by_id_key name client_id metadata) false s3

  -- The loop `for i := actualCount - 1; i >= 0; i--`: it stops at the first entry that matches.
  unfoldable pub find_and_remove : ℕ → ℕ → Bytes → Bytes → S → S
  find_and_remove count zero client_id metadata s = s
  find_and_remove count (suc i) client_id metadata s =
      let rest = find_and_remove count i client_id metadata s in
      let entry = list_entry (format i) s in
      if str_eq entry.client_id client_id && str_eq entry.metadata metadata
      then remove_at count i client_id metadata s
      else rest

  -- internalRemoveObserving, RemoveObservationByClientAndMetadata
  unfoldable pub internal_remove_observing : Bytes → Bytes → S → S
  internal_remove_observing client_id metadata s =
      let actual_count = rounds (list_count s) in
      find_and_remove actual_count actual_count client_id metadata s

  abbrev remove_found : Observation → S → S
  remove_found found s =
      if is_nil found.client_id && is_nil found.metadata
      then s
      else internal_remove_observing found.client_id found.metadata s

  abbrev remove_by_index : Option ℤ → S → S
  remove_by_index none s = s
  remove_by_index (some idx) s = remove_found (list_entry (itoa idx) s) s

  -- RemoveObservationByID
  unfoldable pub remove_observation_by_id : Bytes → S → S
  remove_observation_by_id obs_id s = remove_by_index (atoi obs_id) s

  -- The loop of RemoveAllClientObservations, over the places below the count that it read first.
  unfoldable pub remove_client_entries : ℕ → Bytes → S → S
  remove_client_entries zero client_id s = s
  remove_client_entries (suc i) client_id s =
      let entry = list_entry (format i) s in
      remove_client_entries i client_id (
        if str_eq entry.client_id client_id
        then internal_remove_observing entry.client_id entry.metadata s
        else s)

  unfoldable pub remove_all_client_observations : Bytes → S → S
  remove_all_client_observations client_id s =
      remove_client_entries (rounds (list_count s)) client_id s

  -- RemoveAllObservations
  unfoldable pub remove_all_observations : S → S
  remove_all_observations s =
      set (list_count_key name) (itoa (pos 0)) (delete_value (name ++ codes "._observers") true s)

  abbrev behind_dot : Option (Bytes × Bytes) → List Bytes
  behind_dot none = []
  behind_dot (some (before, after)) = after ∷ []

  -- The loop of GetMetadatasOfAClient over the child names: what stands behind the first dot.
  unfoldable pub metadatas_in : List Bytes → List Bytes
  metadatas_in [] = []
  metadatas_in (curr ∷ rest) = behind_dot (cut b'.' curr) ++ metadatas_in rest

  -- GetMetadatasOfAClient
  unfoldable pub get_metadatas_of_a_client : Bytes → S → List Bytes
  get_metadatas_of_a_client client_id s = metadatas_in (
      get_child_names (name ++ (codes "._observers.byId." ++ (client_id ++ codes ".byMetadata"))) s)

  -- IsClientObserving
  unfoldable pub is_client_observing : Bytes → Bytes → S → Bool
  is_client_observing client_id metadata s = has_value (by_id_key name client_id metadata) s
