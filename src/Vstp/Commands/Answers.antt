-- ===== src/Vstp/Commands/Answers.antt =====
-- vstp.go: the controller that the API is given, and the messages of an answer.
use vss.Prelude.{
  ℕ, Bytes, codes, List, [], ◌∷◌, ◌++◌, Bool, true, false, Option, none, some, ◌^◌, ◌-◌,
}
use vss.Prelude.Int.{ℤ, to_word}
use vss.DynamicVar.{atoi}
use vss.Vstp.Messages.{protocol_message}
use vss.Vstp.Clients.{Clients}

-- IController, on the controller's state: an error is its text.
pub record IController (C : Type 0) : Type 0 where
  pub set_var : Bytes → Bytes → C → Option Bytes × C
  pub del_var : Bytes → C → Option Bytes × C
  pub get_vars : Bytes → C → Option Bytes × List (Bytes × Bytes)
  pub get_childs_of_var : Bytes → C → List Bytes
  pub lock_var : Bytes → ℕ → C → Option Bytes × C
  pub unlock_var : Bytes → C → Option Bytes × C
  pub is_var_locked : Bytes → C → Bool
  pub observe_var : Bytes → Bytes → Bytes → C → C
  pub stop_observing_var : Bytes → Bytes → Bytes → C → C
  pub client_connected : Bytes → C → ℤ × C

-- The API and its controller, and what was written to the client, the first message first.
pub record Reply (C : Type 0) : Type 0 where
  pub written : List Bytes
  pub clients : Clients
  pub ctrl : C

-- What a response writes around its messages.
unfoldable pub frame : Bytes → Bytes → List Bytes → List Bytes
frame cmd cmd_id body =
    protocol_message (codes "beginresponse") cmd_id cmd
    ∷ (body ++ protocol_message (codes "endresponse") cmd_id cmd ∷ [])

abbrev pub error_message : Bytes → Bytes → Bytes
error_message cmd_id text = protocol_message (codes "error") cmd_id text

abbrev pub success_message : Bytes → Bytes
success_message cmd_id = protocol_message (codes "success") cmd_id []

abbrev pub outcome : Bytes → Bytes → Option Bytes → Bytes
outcome cmd_id before none = success_message cmd_id
outcome cmd_id before (some err) = error_message cmd_id (before ++ err)

unfoldable pub value_messages : Bytes → List (Bytes × Bytes) → List Bytes
value_messages cmd_id [] = []
value_messages cmd_id ((name, val) ∷ values) =
    protocol_message (codes "varvalue") cmd_id (name ++ b'=' ∷ val) ∷ value_messages cmd_id values

abbrev pub get_messages : Bytes → Option Bytes × List (Bytes × Bytes) → List Bytes
get_messages cmd_id (some err, values) = error_message cmd_id (codes "get error: " ++ err) ∷ []
get_messages cmd_id (none, values) = value_messages cmd_id values

-- strings.Join(childs, ",")
unfoldable pub join_commas : List Bytes → Bytes
join_commas [] = []
join_commas (x ∷ []) = x
join_commas (x ∷ y ∷ xs) = x ++ b',' ∷ join_commas (y ∷ xs)

abbrev timeout_of : Option ℤ → ℕ
timeout_of none = 2 ^ 64 - 1
timeout_of (some t) = to_word t

-- The timeout of LOCK_VAR, a uint of 64 bits.
unfoldable pub lock_timeout : Bytes → ℕ
lock_timeout val = timeout_of (atoi val)

unfoldable pub lock_status : Bool → Bytes
lock_status true = codes "locked"
lock_status false = codes "unlocked"

abbrev pub set_answer : Bytes → Option Bytes → List Bytes
set_answer cmd_id none = []
set_answer cmd_id (some err) =
    frame (codes "setjson") cmd_id (error_message cmd_id (codes "setjson error: " ++ err) ∷ [])
