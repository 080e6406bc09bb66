-- ===== src/Http/Sockets.antt =====
-- httpapi.go: the websocket clients. A connection is a number, the identity of its *websocket.Conn; each
-- piece of code that holds `clientsMtx` is one step, and what a write or a read of a connection gives is
-- an argument.
pub mod Pairing
use vss.Prelude.{
  ℕ, Bytes, codes, List, [], ◌∷◌, ◌++◌, Bool, true, false, ◌||◌, Option, none, some, str_eq, ◌==◌,
  if◌then◌else◌,
}
use vss.Prelude.Dict.{find, store, discard}
use vss.Text.{has_prefix, trim_space}
use vss.Vstp.Messages.{separate_name_and_metadata}
use vss.Vstp.Commands.{IController}
use vss.Http.Nested.{Any, text, array, object, Elements, no_elements, element, no_fields, field}

-- HTTPAPI: `clients` and `connToID`.
pub record Sockets : Type 0 where
  pub clients : List (Bytes × ℕ)
  pub conn_to_id : List (ℕ × Bytes)

abbrev pub no_sockets : Sockets
no_sockets = record { clients = []; conn_to_id = [] }

abbrev pub client_conn : Bytes → Sockets → Option ℕ
client_conn cid s = find str_eq cid s.clients

abbrev pub conn_id : ℕ → Sockets → Option Bytes
conn_id conn s = find ◌==◌ conn s.conn_to_id

-- CheckAlive
abbrev has_conn : Option ℕ → Bool
has_conn none = false
has_conn (some conn) = true

unfoldable pub check_alive : Bytes → Sockets → Bool
check_alive cid s = has_conn (client_conn cid s)

-- handleWSForVar when the connection is there.
unfoldable pub open_socket : Bytes → ℕ → Sockets → Sockets
open_socket cid conn s = record {
  clients = store str_eq cid conn s.clients;
  conn_to_id = store ◌==◌ conn cid s.conn_to_id;
}

-- The cleanup of handleWSForVar, and of a connection that cannot be written to.
unfoldable pub close_socket : Bytes → ℕ → Sockets → Sockets
close_socket cid conn s = record {
  clients = discard str_eq cid s.clients;
  conn_to_id = discard ◌==◌ conn s.conn_to_id;
}

abbrev close_found : Option Bytes → ℕ → Sockets → Sockets
close_found none conn s = s
close_found (some cid) conn s = close_socket cid conn s

unfoldable pub drop_dead : ℕ → Sockets → Sockets
drop_dead conn s = close_found (conn_id conn s) conn s

-- The changes of NotifyClient as a JSON array; each is a name, its metadata and its value.
unfoldable pub changes_json : List (Bytes × Bytes × Bytes) → Elements
changes_json [] = no_elements
changes_json ((name, meta, value) ∷ changes) =
    element
      (object (
        field (codes "name") (text name)
          (field (codes "meta") (text meta) (field (codes "value") (text value) no_fields))))
      (changes_json changes)

-- What NotifyClient returns, the sockets afterwards, and the message that it writes.
abbrev written : Bool → ℕ → Bytes → Sockets → Bool × Sockets × Option Bytes
written true conn message s = (true, s, some message)
written false conn message s = (false, drop_dead conn s, none)

abbrev notify_conn :
    (ℕ → Bytes → Bool) → Option ℕ → Option Bytes → Sockets → Bool × Sockets × Option Bytes
notify_conn write none message s = (false, s, none)
notify_conn write (some conn) none s = (false, s, none)
notify_conn write (some conn) (some message) s = written (write conn message) conn message s

-- NotifyClient
unfoldable pub notify_client :
    (Any → Option Bytes)
    → (ℕ → Bytes → Bool)
    → Bytes
    → List (Bytes × Bytes × Bytes)
    → Sockets
    → Bool × Sockets × Option Bytes
notify_client marshal write cid changes s =
    notify_conn write (client_conn cid s) (marshal (array (changes_json changes))) s

-- separateKeyAndValue
unfoldable pub separate_at_colon : Bytes → Bytes × Bytes
separate_at_colon [] = ([], [])
separate_at_colon (c ∷ s) =
    let later = separate_at_colon s in
    if c == b':' || c == b'=' then ([], s) else (c ∷ later.0, later.1)

-- What ReadMessage gives until it fails: a text message, or one of another kind.
pub data Received : Type 0 where
  text_message : Bytes → Received
  other_message : Received

module _ {C : Type 0} (ctrl : IController C) where
  open ctrl use {observe_var, stop_observing_var, client_connected}

  -- One round of the read loop.
  unfoldable pub handle_message : Bytes → Received → C → C
  handle_message cid other_message c = c
  handle_message cid (text_message msg) c =
      let s = trim_space msg in
      let named = separate_name_and_metadata (separate_at_colon s).1 in
      if has_prefix s (codes "subscribe:")
      then observe_var named.0 cid named.1 c
      else if has_prefix s (codes "unsubscribe:")
      then stop_observing_var named.0 cid named.1 c
      else c

  unfoldable pub read_loop : Bytes → List Received → C → C
  read_loop cid [] c = c
  read_loop cid (msg ∷ msgs) c = read_loop cid msgs (handle_message cid msg c)

  -- handleWSForVar: the controller after the connection, the loop and the cleanup.
  unfoldable pub handle_ws_for_var : Bytes → Bytes → List Received → C → C
  handle_ws_for_var name cid msgs c =
      read_loop cid msgs (observe_var name cid [] (client_connected cid c).1)
