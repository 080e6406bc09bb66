-- ===== src/Tests/Client.antt =====
-- The client library at concrete inputs.
use vss.Prelude.{true, Bytes, codes, [], ◌∷◌, ◌++◌, ◌≡◌, refl, false, none, some}
use vss.Prelude.Dict.{find}
use vss.Prelude.Int.{int_eq, pos}
use vss.Text.{contains, trim_space, trim_left, trim_right, is_space}
use vss.DynamicVar.{atoi, digits_value, is_digit}
use vss.Vstp.Clients.{no_clients}
use vss.Vstp.Messages.{is_separator, var_changed}
use vss.Vstp.Messages.RoundTrip.{has_separator}
use vss.Vstp.{trim_cr}
use vss.Vstp.Commands.Lines.{IsOneLine, process_bytes}
use vss.Client.{handle_new_data, set_var, unlock}
use vss.Client.Answers.{
  transmit, received, line_of, set_var-process_received_message, unlock-process_received_message,
}
use vss.Client.{pack_from_cmd_and_payload}
use vss.Vstp.Messages.{sent_initial_headers}
use vss.Client.Session.{
  read_headers, exchange_ids, exchange_ids-sent_initial_headers, run_locked, locking, callback,
}
use vss.Client.Observing.{ObservingInfo, Observings, on_pack, called, on_pack-var_changed}
use vss.Tests.Server.{keeper, no_json}

abbrev lamp : Bytes
lamp = codes "lamp"

lamp_is_whole : has_separator lamp ≡ false
unfolding is_separator
lamp_is_whole = refl

lamp_on_is_trimmed : trim_space (lamp ++ b'=' ∷ codes "on") ≡ lamp ++ b'=' ∷ codes "on"
unfolding trim_space trim_left trim_right is_space
lamp_on_is_trimmed = refl

set_lamp_line-IsOneLine : IsOneLine (line_of (codes "set") lamp (codes "on"))
unfolding contains trim_cr
set_lamp_line-IsOneLine = record { no_end = refl; no_return = refl }

set_var-process_received_message_example :
    (set_var [] lamp (codes "on") none (
        received
          (process_bytes keeper no_json
            (pos 5)
            1
            (line_of (codes "set") lamp (codes "on") ++ b'\n' ∷ [])
            no_clients
            []).written)
      ≡ some (codes "SetVar command timeout reached"))
    × ((process_bytes keeper no_json
          (pos 5)
          1
          (line_of (codes "set") lamp (codes "on") ++ b'\n' ∷ [])
          no_clients
          []).ctrl
        ≡ (keeper.set_var lamp (codes "on") []).1)
set_var-process_received_message_example =
    set_var-process_received_message keeper no_json (pos 5) 1 [] lamp (codes "on") none no_clients
      [] refl lamp_is_whole lamp_on_is_trimmed set_lamp_line-IsOneLine

lamp_is_trimmed : trim_space (lamp ++ b'=' ∷ []) ≡ lamp ++ b'=' ∷ []
unfolding trim_space trim_left trim_right is_space
lamp_is_trimmed = refl

unlock_lamp-IsOneLine : IsOneLine (line_of (codes "unlock") lamp [])
unfolding contains trim_cr
unlock_lamp-IsOneLine = record { no_end = refl; no_return = refl }

unlock-process_received_message_example :
    (unlock [] lamp none (
        received
          (process_bytes keeper no_json
            (pos 5)
            1
            (line_of (codes "unlock") lamp [] ++ b'\n' ∷ [])
            no_clients
            []).written)
      ≡ none)
    × ((process_bytes keeper no_json
          (pos 5)
          1
          (line_of (codes "unlock") lamp [] ++ b'\n' ∷ [])
          no_clients
          []).ctrl
        ≡ (keeper.unlock_var lamp []).1)
unlock-process_received_message_example =
    unlock-process_received_message keeper no_json (pos 5) 1 [] lamp no_clients [] lamp_is_whole
      lamp_is_trimmed unlock_lamp-IsOneLine

abbrev lamp_info : ObservingInfo
lamp_info = record { var_name = codes "room.lamp"; custom_id = codes "3" }

abbrev one_observer : Observings
one_observer = record {
  custom_observer_id_count = pos 4;
  var_change_observings = (pos 3, lamp_info) ∷ [];
}

three_is_read : atoi (codes "3") ≡ some (pos 3)
unfolding atoi digits_value is_digit
three_is_read = refl

three_is_found : find int_eq (pos 3) one_observer.var_change_observings ≡ some lamp_info
unfolding find int_eq
three_is_found = refl

lamp_lacks :
    (contains (codes "room.lamp") b'=' ≡ false)
    × (contains (codes "room.lamp") b'(' ≡ false)
    × (contains (codes "3") b'=' ≡ false)
unfolding contains
lamp_lacks = (refl, refl, refl)

on_pack-var_changed_example :
    on_pack
      (codes "0x47b0e0")
      (codes "room.")
      (record {
        cmd = codes "varchanged";
        payload = var_changed (codes "room.lamp") (codes "3") (codes "on");
      })
      one_observer
    ≡ called (pos 3) lamp (codes "0x47b0e0")
on_pack-var_changed_example =
    on_pack-var_changed (codes "0x47b0e0") (codes "room.") lamp (codes "3") (codes "on") (pos 3)
      lamp_info one_observer lamp_lacks.0 lamp_lacks.1 lamp_lacks.2 refl three_is_read
      three_is_found

ids_are_lines :
    (contains (codes "2.0.0") b'\n' ≡ false) × (contains (codes "0-moose") b'\n' ≡ false)
unfolding contains
ids_are_lines = (refl, refl)

exchange_ids-sent_initial_headers_example :
    (let packs =
        (handle_new_data []
          (transmit (sent_initial_headers (some (codes "2.0.0")) (codes "0-moose")))).0 in
      let headers = read_headers packs [] in
      (headers.0 ≡ true)
      × (exchange_ids [] true headers.1 ≡ (
        none,
        codes "0-moose",
        pack_from_cmd_and_payload (codes "setid") (codes "0-moose") ∷ [],
      )))
exchange_ids-sent_initial_headers_example =
    exchange_ids-sent_initial_headers (some (codes "2.0.0")) (codes "0-moose") true ids_are_lines.0
      ids_are_lines.1

-- RunLocked of a client with a prefix, whose callback fails: the lock is left.
left_locked : run_locked (codes "home.") (codes "door") true none (some (codes "no")) none ≡ (
  some (codes "error running the locked code: no"),
  locking (codes "home.home.door") ∷ callback ∷ [],
)
unfolding run_locked
left_locked = refl
