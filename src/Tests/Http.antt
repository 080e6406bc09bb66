-- ===== src/Tests/Http.antt =====
-- The HTTP API at concrete inputs.
use vss.Prelude.{
  Bytes, codes, List, [], ◌∷◌, ◌≡◌, ◌≢◌, refl, true, false, none, some, str_eq, str_eq_refl,
  if◌then◌else◌, arith, is_nil, All,
}
use vss.Prelude.Dict.{find, store}
use vss.Text.{split}
use vss.DynamicVar.{atoi, digits_value, is_digit, to_lower}
use vss.Http.Nested.{Any, text, object, Fields, no_fields, field}
use vss.Http.Nested.Reads.{read}
use vss.Http.Arrays.{normalize_arrays, to_array, numeric_keys, is_index}
use vss.Http.Arrays.Bounds.{has_key, keys_within, IsMade, normalize_arrays-IsMade}
use vss.Http.Requests.{Go, Request, var_name, dots, has_suffix}
use vss.Http.Handlers.{handle_path, handle_lock_by_name}
use vss.Http.Exports.{insert_values, parse_dynamic_var}
use vss.Http.Handlers.Answers.{is_refusal, handle_path-refusal}
use vss.Http.Handlers.Tree.{IsPlainVar, written_at, read-insert_values}
use vss.Http.Sockets.{Sockets, no_sockets, client_conn, open_socket, check_alive, notify_client}
use vss.Http.Sockets.Pairing.{opened, IsReached, started, stepped, check_alive-notify_client}
use vss.Tests.Server.{keeper}

-- No text is JSON, and each range meets the keys in the order of the fields.
abbrev pub plain_go : Go
plain_go = record {
  unmarshal = λ s. none;
  decode = λ s. none;
  marshal = λ v. some [];
  marshal_indent = λ v. some [];
  float_text = λ s. none;
  sprint = λ v. [];
  check_order = λ m. m;
  fill_order = λ m. m;
}

abbrev lock_at_once : Request
lock_at_once = record {
  method = codes "LOCK";
  path = codes "/room/lamp";
  query = λ key. [];
  header = λ key. if str_eq key (codes "Lock-Timeout") then codes "0" else [];
  body = [];
}

lock_at_once_is_refused : is_refusal (handle_path plain_go keeper lock_at_once []).0 ≡ true
unfolding handle_path is_refusal var_name dots str_eq to_lower handle_lock_by_name atoi
lock_at_once_is_refused = refl

handle_path-refusal_example : (handle_path plain_go keeper lock_at_once []).1 ≡ []
handle_path-refusal_example =
    handle_path-refusal plain_go keeper lock_at_once [] lock_at_once_is_refused

lamp_named : is_nil (var_name (codes "/lamp")) ≡ false
unfolding var_name dots
lamp_named = refl

lamp_plain : has_suffix b'*' (var_name (codes "/lamp")) ≡ false
unfolding var_name dots has_suffix
lamp_plain = refl

lamp_set :
    keeper.set_var (var_name (codes "/lamp")) (codes "on") []
    ≡ (none, (codes "lamp", codes "on") ∷ [])
unfolding var_name dots store
lamp_set = refl

lamp_got :
    keeper.get_vars (var_name (codes "/lamp")) ((codes "lamp", codes "on") ∷ [])
    ≡ (none, (var_name (codes "/lamp"), codes "on") ∷ [])
unfolding var_name dots
lamp_got = refl

-- Two variables, one below the other.
abbrev two_vars : List (Bytes × Bytes)
two_vars = (codes "a", codes "x") ∷ (codes "a.b", codes "on") ∷ []

two_vars_are_plain : All (IsPlainVar plain_go) two_vars
unfolding split parse_dynamic_var str_eq
two_vars_are_plain = ((((refl, refl), tt), tt), ((((refl, refl), ((refl, refl), tt)), tt), tt))

read-insert_values_example :
    read (codes "a" ∷ []) (insert_values plain_go true (codes "*") true two_vars no_fields)
    ≡ written_at plain_go (codes "a" ∷ []) two_vars (read (codes "a" ∷ []) no_fields)
unfolding str_eq
read-insert_values_example =
    read-insert_values plain_go (codes "*") true two_vars no_fields (codes "a" ∷ []) (λ h. cc)
      ((refl, refl), tt) two_vars_are_plain

keys_within_more :
    (k : Bytes) (v : Any) (fs gs : Fields)
    → keys_within fs gs ≡ true
    → keys_within fs (field k v gs) ≡ true
unfolding keys_within has_key
keys_within_more k v no_fields gs h = refl
keys_within_more k v (field j w fs) gs h = ground (arith, keys_within_more k v fs gs)

keys_within_refl : (m : Fields) → keys_within m m ≡ true
unfolding keys_within has_key
keys_within_refl no_fields = refl
keys_within_refl (field k v fs) =
    rw (str_eq_refl k, keys_within_more k v fs fs (keys_within_refl fs)) refl

abbrev two_rooms : Any
two_rooms =
    object
      (field (codes "0") (text (codes "hall")) (field (codes "1") (text (codes "attic")) no_fields))

normalize_arrays-IsMade_example : IsMade (normalize_arrays (λ m. m) (λ m. m) two_rooms)
normalize_arrays-IsMade_example =
    normalize_arrays-IsMade (λ m. m) (λ m. m) keys_within_refl two_rooms

-- Met in the other order, the same keys make no array.
abbrev swapped : Fields
swapped =
    field (codes "1") (text (codes "attic")) (field (codes "0") (text (codes "hall")) no_fields)

swapped_stays : normalize_arrays (λ m. m) (λ m. m) (object swapped) ≡ some (object swapped)
unfolding normalize_arrays to_array numeric_keys is_index atoi digits_value is_digit
swapped_stays = refl

abbrev one_socket : Sockets
one_socket = open_socket (codes "17") 4 no_sockets

no_client_yet : (id : Bytes) → client_conn id no_sockets ≢ some 4
unfolding find
no_client_yet id h = cc

one_socket-IsReached : IsReached one_socket
one_socket-IsReached =
    stepped no_sockets one_socket started (opened (codes "17") 4 no_sockets no_client_yet)

write_fails :
    (notify_client (λ v. some []) (λ conn message. false) (codes "17") [] one_socket).0 ≡ false
unfolding notify_client open_socket store find str_eq
write_fails = refl

check_alive-notify_client_example :
    check_alive
      (codes "17")
      (notify_client (λ v. some []) (λ conn message. false) (codes "17") [] one_socket).1
    ≡ false
check_alive-notify_client_example =
    check_alive-notify_client (λ v. some []) (λ conn message. false) (codes "17") [] one_socket []
      one_socket-IsReached refl write_fails
