-- ===== src/Vstp/Clients.antt =====
-- vstp.go, `VSTP`: the maps of the clients. A connection is a number, the identity of its ITCPClient.
-- Each call holds `clientsLock`, so it is one step.
pub mod Invariant
pub mod Reachable
use vss.Prelude.{
  ℕ, zero, suc, Bytes, codes, List, [], ◌∷◌, ◌++◌, Bool, true, false, str_eq, ◌==◌, if◌then◌else◌,
  is_nil, Option, none, some,
}
use vss.Prelude.Int.{ℤ, pos, incr}
use vss.Prelude.Dict.{find, store, discard}
use vss.DynamicVar.{itoa}
use vss.Vstp.{on_client_data}
use vss.Vstp.Messages.{protocol_message, var_changed}

pub record Clients : Type 0 where
  pub clients_by_id : List (Bytes × ℕ)
  pub clients_by_tcp_cli : List (ℕ × Bytes)
  pub incoming_data_buffer : List (ℕ × Bytes)
  pub cli_id_count : ℤ

-- NewVSTP
abbrev pub no_clients : Clients
no_clients = record {
  clients_by_id = [];
  clients_by_tcp_cli = [];
  incoming_data_buffer = [];
  cli_id_count = pos 0;
}

abbrev pub by_id : Bytes → Clients → Option ℕ
by_id id v = find str_eq id v.clients_by_id

abbrev pub by_tcp_cli : ℕ → Clients → Option Bytes
by_tcp_cli cli v = find ◌==◌ cli v.clients_by_tcp_cli

-- clientsById[id] = cli and clientsByTcpCli[cli] = id
unfoldable pub register : Bytes → ℕ → Clients → Clients
register id cli v = record v {
  clients_by_id = store str_eq id cli v.clients_by_id;
  clients_by_tcp_cli = store ◌==◌ cli id v.clients_by_tcp_cli;
}

-- SetOnCLientConnect; `fun_name` is what CreateFunName draws.
abbrev pub new_id : Bytes → Clients → Bytes
new_id fun_name v = itoa v.cli_id_count ++ b'-' ∷ fun_name

unfoldable pub on_client_connect : ℕ → Bytes → Clients → Clients
on_client_connect cli fun_name v =
    let registered = register (new_id fun_name v) cli v in
    record registered {
      incoming_data_buffer = store ◌==◌ cli [] v.incoming_data_buffer;
      cli_id_count = incr v.cli_id_count;
    }

-- The id that the scan of clientsById stops at.
unfoldable pub id_of : ℕ → List (Bytes × ℕ) → Option Bytes
id_of cli [] = none
id_of cli ((id, c) ∷ rest) = if c == cli then some id else id_of cli rest

abbrev discard_id : Option Bytes → List (Bytes × ℕ) → List (Bytes × ℕ)
discard_id none m = m
discard_id (some id) m = discard str_eq id m

abbrev or_scan : Option Bytes → Option Bytes → Option Bytes
or_scan none scanned = scanned
or_scan (some id) scanned = some id

-- SetOnClientDisconnect
unfoldable pub on_client_disconnect : ℕ → Clients → Clients
on_client_disconnect cli v = record v {
  clients_by_id =
      discard_id (or_scan (by_tcp_cli cli v) (id_of cli v.clients_by_id)) v.clients_by_id;
  clients_by_tcp_cli = discard ◌==◌ cli v.clients_by_tcp_cli;
  incoming_data_buffer = discard ◌==◌ cli v.incoming_data_buffer;
}

abbrev take_data : ℕ → Bytes → Clients → Option Bytes → Option (List Bytes × Clients)
take_data cli bytes v none = none
take_data cli bytes v (some buf) =
    let taken = on_client_data buf bytes in
    some
      (taken.0, record v { incoming_data_buffer = store ◌==◌ cli taken.1 v.incoming_data_buffer })

-- SetOnClientData: the lines to process. `none`: for a connection without a buffer the handler takes
-- the lock that it holds, and waits for ever.
unfoldable pub on_data : ℕ → Bytes → Clients → Option (List Bytes × Clients)
on_data cli bytes v = take_data cli bytes v (find ◌==◌ cli v.incoming_data_buffer)

abbrev is_some {ℓ} : {A : Type ℓ} → Option A → Bool
is_some none = false
is_some (some a) = true

-- CheckAlive
unfoldable pub check_alive : Bytes → Clients → Bool
check_alive client_id v = is_some (by_id client_id v)

abbrev pub id_or_empty : Option Bytes → Bytes
id_or_empty none = []
id_or_empty (some id) = id

-- The maps after CHANGE_OR_CONFIRM_CLI_ID.
unfoldable pub change_id : ℕ → Bytes → Clients → Clients
change_id cli new_id v =
    let old_id = id_or_empty (by_tcp_cli cli v) in
    register new_id cli (
      if is_nil old_id
      then v
      else record v { clients_by_id = discard str_eq old_id v.clients_by_id })

-- The id under which SUBSCRIBE_VAR observes, and the maps afterwards; `now` is the time in
-- nanoseconds.
unfoldable pub subscriber : ℕ → ℤ → Clients → Bytes × Clients
subscriber cli now v =
    let cid = id_or_empty (by_tcp_cli cli v) in
    if is_nil cid then (itoa now, register (itoa now) cli v) else (cid, v)

-- The loop of NotifyClient. `sends` says whether SendString succeeds; the messages are those that it
-- was called with.
unfoldable pub send_changes : (ℕ → Bytes → Bool) → ℕ → List (List Bytes) → Bool × List (ℕ × Bytes)
send_changes sends cli [] = (true, [])
send_changes sends cli ((name ∷ meta ∷ value ∷ more) ∷ rest) =
    let message = protocol_message (codes "varchanged") [] (var_changed name meta value) in
    let later = send_changes sends cli rest in
    if sends cli message then (later.0, (cli, message) ∷ later.1) else (false, (cli, message) ∷ [])
send_changes sends cli (short ∷ rest) = send_changes sends cli rest

abbrev send_to : (ℕ → Bytes → Bool) → List (List Bytes) → Option ℕ → Bool × List (ℕ × Bytes)
send_to sends vars_and_values none = (false, [])
send_to sends vars_and_values (some cli) = send_changes sends cli vars_and_values

unfoldable pub notify_client :
    (ℕ → Bytes → Bool) → Bytes → List (List Bytes) → Clients → Bool × List (ℕ × Bytes)
notify_client sends client_id vars_and_values v = send_to sends vars_and_values (by_id client_id v)
