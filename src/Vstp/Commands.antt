-- ===== src/Vstp/Commands.antt =====
-- vstp.go, `processReceivedMessage` and `setJsonVars`: what a client's message does, and what is
-- written to the client. The controller is an argument: its operations, each run to its end.
-- Of encoding/json only its result is used: `decode` gives the object that the text stands for.
mod Answers
unfoldable pub use Answers.*
pub mod Frames
pub mod Requests
pub mod Lines
use vss.Prelude.{
  ℕ, Bytes, codes, List, [], ◌∷◌, ◌++◌, map, Bool, true, false, ◌&&◌, ◌||◌, str_eq, leb, ◌==◌,
  if◌then◌else◌, is_nil, Option, none, some, ◌^◌, ◌-◌,
}
use vss.Prelude.Int.{ℤ, pos, to_word}
use vss.Prelude.Dict.{find}
use vss.DynamicVar.{itoa, atoi}
use vss.Vstp.Messages.{
  separate_key_and_value, separate_name_and_metadata, separate_command_id_and_payload,
  protocol_message,
}
use vss.Text.{trim_space}
use vss.Vstp.Json.{Members, extract_names}
use vss.Vstp.Clients.{Clients, by_tcp_cli, id_or_empty, change_id, subscriber}

pub data Command : Type 0 where
  set delete get subscribe unsubscribe lock unlock : Command
  set_json ping set_id get_childs lock_status_of unknown : Command

-- The word of each command.
abbrev pub command_words : List (Bytes × Command)
command_words =
    (codes "set", set)
    ∷ (codes "delete", delete)
    ∷ (codes "get", get)
    ∷ (codes "subscribe", subscribe)
    ∷ (codes "unsubscribe", unsubscribe)
    ∷ (codes "lock", lock)
    ∷ (codes "unlock", unlock)
    ∷ (codes "setjson", set_json)
    ∷ (codes "ping", ping)
    ∷ (codes "setid", set_id)
    ∷ (codes "getchilds", get_childs)
    ∷ (codes "lockstatus", lock_status_of)
    ∷ []

abbrev command_or_unknown : Option Command → Command
command_or_unknown none = unknown
command_or_unknown (some c) = c

unfoldable pub command_of : Bytes → Command
command_of cmd = command_or_unknown (find str_eq cmd command_words)

module _ {C : Type 0} (ctrl : IController C) (decode : Bytes → Members) (now : ℤ) where
  open ctrl use {
    set_var, del_var, get_vars, get_childs_of_var, lock_var, unlock_var, is_var_locked, observe_var,
    stop_observing_var, client_connected,
  }

  -- The loop of setJsonVars: each error is answered with a response of its own.
  unfoldable pub set_each : Bytes → List (Bytes × Bytes) → C → List Bytes × C
  set_each cmd_id [] c = ([], c)
  set_each cmd_id ((name, val) ∷ to_set) c =
      let done = set_var name val c in
      let rest = set_each cmd_id to_set done.1 in (set_answer cmd_id done.0 ++ rest.0, rest.1)

  -- setJsonVars
  unfoldable pub set_json_vars : Bytes → Bytes → Clients → C → Reply C
  set_json_vars cmd_id payload v c =
      let parts = separate_key_and_value payload in
      let to_set = extract_names parts.0 (decode parts.1) [] in
      let sets = set_each cmd_id to_set c in
      if is_nil parts.0 || is_nil parts.1
      then record {
        written = frame (codes "setjson") cmd_id (
            error_message cmd_id
              (codes "setjson error: invalid payload format, expected parent=json")
            ∷ []);
        clients = v;
        ctrl = c;
      }
      else record {
        written = sets.0 ++ frame (codes "setjson") cmd_id (success_message cmd_id ∷ []);
        clients = v;
        ctrl = sets.1;
      }

  unfoldable pub do_set : Bytes → Bytes → Clients → C → Reply C
  do_set cmd_id payload v c =
      let parts = separate_key_and_value payload in
      let done = set_var parts.0 parts.1 c in
      if is_nil parts.0
      then record {
        written =
            frame (codes "set") cmd_id
              (error_message cmd_id (codes "set error: invalid variable name") ∷ []);
        clients = v;
        ctrl = c;
      }
      else record {
        written =
            frame (codes "set") cmd_id (outcome cmd_id (codes "error: set error: ") done.0 ∷ []);
        clients = v;
        ctrl = done.1;
      }

  unfoldable pub do_delete : Bytes → Bytes → Clients → C → Reply C
  do_delete cmd_id payload v c =
      let done = del_var payload c in
      record {
        written = frame (codes "delete") cmd_id (outcome cmd_id [] done.0 ∷ []);
        clients = v;
        ctrl = done.1;
      }

  unfoldable pub do_get : Bytes → Bytes → Clients → C → Reply C
  do_get cmd_id payload v c = record {
    written = frame (codes "get") cmd_id (get_messages cmd_id (get_vars payload c));
    clients = v;
    ctrl = c;
  }

  -- What ObserveVar sends of the current values is the controller's doing, and not in the reply.
  unfoldable pub do_subscribe : ℕ → Bytes → Bytes → Clients → C → Reply C
  do_subscribe cli cmd_id payload v c =
      let parts = separate_name_and_metadata payload in
      let observer = subscriber cli now v in
      record {
        written = frame (codes "subscribe") cmd_id [];
        clients = observer.1;
        ctrl = observe_var parts.0 observer.0 parts.1 c;
      }

  unfoldable pub do_unsubscribe : ℕ → Bytes → Bytes → Clients → C → Reply C
  do_unsubscribe cli cmd_id payload v c =
      let parts = separate_name_and_metadata payload in
      let cid = id_or_empty (by_tcp_cli cli v) in
      if is_nil cid then record { written = []; clients = v; ctrl = c } else record {
        written = frame (codes "unsubscribe") cmd_id (success_message cmd_id ∷ []);
        clients = v;
        ctrl = stop_observing_var parts.0 cid parts.1 c;
      }

  unfoldable pub do_lock : Bytes → Bytes → Clients → C → Reply C
  do_lock cmd_id payload v c =
      let parts = separate_key_and_value payload in
      let done = lock_var parts.0 (lock_timeout parts.1) c in
      record {
        written = frame (codes "lock") cmd_id (outcome cmd_id [] done.0 ∷ []);
        clients = v;
        ctrl = done.1;
      }

  unfoldable pub do_unlock : Bytes → Bytes → Clients → C → Reply C
  do_unlock cmd_id payload v c =
      let parts = separate_key_and_value payload in
      record {
        written =
            frame (codes "unlock") cmd_id
              (protocol_message (codes "unlockdone") cmd_id parts.0 ∷ []);
        clients = v;
        ctrl = (unlock_var parts.0 c).1;
      }

  unfoldable pub do_ping : Bytes → Clients → C → Reply C
  do_ping cmd_id v c = record {
    written = frame (codes "ping") cmd_id (protocol_message (codes "pong") cmd_id [] ∷ []);
    clients = v;
    ctrl = c;
  }

  unfoldable pub do_set_id : ℕ → Bytes → Bytes → Clients → C → Reply C
  do_set_id cli cmd_id payload v c =
      let connected = client_connected payload c in
      record {
        written =
            frame (codes "setid") cmd_id
              (protocol_message (codes "aoc") cmd_id (itoa connected.0) ∷ []);
        clients = change_id cli payload v;
        ctrl = connected.1;
      }

  unfoldable pub do_get_childs : Bytes → Bytes → Clients → C → Reply C
  do_get_childs cmd_id payload v c = record {
    written =
        frame (codes "getchilds") cmd_id (
          protocol_message (codes "childs") cmd_id (join_commas (get_childs_of_var payload c))
          ∷ []);
    clients = v;
    ctrl = c;
  }

  unfoldable pub do_lock_status : Bytes → Bytes → Clients → C → Reply C
  do_lock_status cmd_id payload v c = record {
    written = frame (codes "lockstatus") cmd_id (
        protocol_message (codes "lockstatusresult") cmd_id
          (payload ++ b'=' ∷ lock_status (is_var_locked payload c))
        ∷ []);
    clients = v;
    ctrl = c;
  }

  -- The switch of processReceivedMessage.
  unfoldable pub do_command : Command → ℕ → Bytes → Bytes → Clients → C → Reply C
  do_command set cli cmd_id payload v c = do_set cmd_id payload v c
  do_command delete cli cmd_id payload v c = do_delete cmd_id payload v c
  do_command get cli cmd_id payload v c = do_get cmd_id payload v c
  do_command subscribe cli cmd_id payload v c = do_subscribe cli cmd_id payload v c
  do_command unsubscribe cli cmd_id payload v c = do_unsubscribe cli cmd_id payload v c
  do_command lock cli cmd_id payload v c = do_lock cmd_id payload v c
  do_command unlock cli cmd_id payload v c = do_unlock cmd_id payload v c
  do_command set_json cli cmd_id payload v c = set_json_vars cmd_id payload v c
  do_command ping cli cmd_id payload v c = do_ping cmd_id v c
  do_command set_id cli cmd_id payload v c = do_set_id cli cmd_id payload v c
  do_command get_childs cli cmd_id payload v c = do_get_childs cmd_id payload v c
  do_command lock_status_of cli cmd_id payload v c = do_lock_status cmd_id payload v c
  do_command unknown cli cmd_id payload v c = record { written = []; clients = v; ctrl = c }

  -- processReceivedMessage, with a controller.
  unfoldable pub process_received_message : ℕ → Bytes → Clients → C → Reply C
  process_received_message cli message v c =
      let parts = separate_command_id_and_payload message in
      do_command (command_of (trim_space parts.0)) cli parts.1 (trim_space parts.2) v c

-- processReceivedMessage without a controller: what it writes.
unfoldable pub refuse_message : Bytes → List Bytes
refuse_message message =
    let parts = separate_command_id_and_payload message in
    frame (trim_space parts.0) parts.1
      (error_message parts.1 (codes "vss error: no controller available") ∷ [])
