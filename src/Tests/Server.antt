-- ===== src/Tests/Server.antt =====
-- The clients and the commands of sources/services/apis/vstp/vstp.go at concrete inputs.
use vss.Prelude.{Bytes, codes, List, [], ◌∷◌, ◌++◌, ◌≡◌, ◌≢◌, refl, false, str_eq, none, some}
use vss.Prelude.Int.{pos}
use vss.Prelude.Dict.{find, store}
use vss.DynamicVar.{itoa, format}
use vss.Text.{trim_space, trim_left, trim_right, is_space}
use vss.Vstp.Json.{Members, no_members}
use vss.Vstp.Messages.{protocol_message}
use vss.Vstp.Clients.{Clients, no_clients, by_tcp_cli, register, on_client_connect, change_id}
use vss.Vstp.Clients.Invariant.{IsConsistent}
use vss.Vstp.Clients.Reachable.{
  connects, changes_id, Reachable, begins, goes_on, Reachable-IsConsistent,
}
use vss.Vstp.Commands.{IController}

abbrev one_client : Clients
one_client = on_client_connect 7 (codes "moose") no_clients

not_there : by_tcp_cli 7 no_clients ≡ none
unfolding find
not_there = refl

id_given : codes "anna" ≢ []
id_given h = cc

one_client-Reachable : Reachable one_client
one_client-Reachable = goes_on begins (connects 7 (codes "moose") no_clients not_there)

abbrev named_client : Clients
named_client = change_id 7 (codes "anna") one_client

named_client-Reachable : Reachable named_client
named_client-Reachable =
    goes_on one_client-Reachable (changes_id 7 (codes "anna") one_client id_given)

Reachable-IsConsistent_example : IsConsistent named_client
Reachable-IsConsistent_example = Reachable-IsConsistent named_client named_client-Reachable

first_id : by_tcp_cli 7 one_client ≡ some (codes "0-moose")
unfolding find on_client_connect register store itoa format
first_id = refl

-- A controller that keeps what it is told to set.
abbrev pub keeper : IController (List (Bytes × Bytes))
keeper = record {
  set_var = λ name val c. (none, store str_eq name val c);
  del_var = λ name c. (some (codes "no such variable"), c);
  get_vars = λ name c. (none, c);
  get_childs_of_var = λ name c. [];
  lock_var = λ name timeout c. (none, c);
  unlock_var = λ name c. (none, c);
  is_var_locked = λ name c. false;
  observe_var = λ name id meta c. c;
  stop_observing_var = λ name id meta c. c;
  client_connected = λ id c. (pos 0, c);
}

abbrev pub no_json : Bytes → Members
no_json s = no_members

abbrev set_lamp : Bytes
set_lamp = protocol_message (codes "set") (codes "17") (codes "room.lamp" ++ b'=' ∷ codes "on")

lamp_trimmed :
    trim_space (codes "room.lamp" ++ b'=' ∷ codes "on") ≡ codes "room.lamp" ++ b'=' ∷ codes "on"
unfolding trim_space trim_left trim_right is_space
lamp_trimmed = refl
