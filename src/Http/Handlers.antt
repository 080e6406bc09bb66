-- ===== src/Http/Handlers.antt =====
-- httpapi.go, `handlePath` and the handlers that it calls, over the controller's interface.
pub mod Answers
pub mod PostGet
pub mod Leaves
pub mod Tree
use vss.Prelude.{
  ℕ, ◌*◌, ◌%◌, ◌^◌, Bytes, codes, List, [], ◌∷◌, ◌++◌, map, Bool, true, false, ◌&&◌, ◌||◌, not,
  Option, none, some, str_eq, ◌==◌, leb, is_nil, if◌then◌else◌,
}
use vss.Prelude.Int.{ℤ, pos, negsuc, to_word}
use vss.DynamicVar.{atoi, itoa, get_int64, get_bool, to_lower}
use vss.Text.{split, contains_text}
use vss.Vstp.Commands.{IController}
use vss.Http.Nested.{Any, scalar, text, array, object, Fields, no_fields, field, insert_nested}
use vss.Http.Arrays.{normalize_arrays}
use vss.Http.Exports.{values_answer}
use vss.Http.Requests.{
  Go, Request, Answer, answer, websocket, panicked, http_error, no_content, ok_json, json_name,
  is_alone, plain_line, join_lines, var_name, exporter_of, flag,
}

-- How setJson ends.
pub data SetJson : Type 0 where
  done : SetJson
  failed : Bytes → SetJson
  set_panicked : SetJson

abbrev with_context : Bytes → SetJson → SetJson
with_context name done = done
with_context name (failed err) =
    failed (codes "error setting var (with json content) " ++ (name ++ (codes ": " ++ err)))
with_context name set_panicked = set_panicked

abbrev set_result : Bytes → Option Bytes → SetJson
set_result name none = done
set_result name (some err) = failed (codes "error setting var " ++ (name ++ (codes ": " ++ err)))

-- The loop goes on after a value that was set.
abbrev then_set : {C : Type 0} → SetJson × C → (C → SetJson × C) → SetJson × C
then_set (done, c) rest = rest c
then_set (failed err, c) rest = (failed err, c)
then_set (set_panicked, c) rest = (set_panicked, c)

-- if parent != "" { parent = parent + "." }
abbrev dotted : Bytes → Bytes
dotted [] = []
dotted (c ∷ s) = (c ∷ s) ++ b'.' ∷ []

-- strings.Contains(err.Error(), "timeout")
abbrev lock_answer : Option Bytes → Answer
lock_answer none = no_content
lock_answer (some err) =
    if contains_text err (codes "timeout") then http_error err 408 else http_error err 500

abbrev answer_or : ℕ → Option Bytes → Answer
answer_or status none = no_content
answer_or status (some err) = http_error err status

module _ (go : Go) where
  open go use {decode, marshal, sprint}

  module _ {C : Type 0} (ctrl : IController C) where
    open ctrl use {
      set_var, del_var, get_vars, lock_var, unlock_var, observe_var, stop_observing_var,
      client_connected,
    }

    abbrev lock_for : Bytes → Option ℤ → C → Answer × C
    lock_for name none c = (http_error (codes "invalid Lock-Timeout value") 400, c)
    lock_for name (some (negsuc n)) c =
        (http_error (codes "Lock-Timeout must be greater than 0") 400, c)
    lock_for name (some (pos timeout)) c =
        let locked = lock_var name (timeout * 1000 % 2 ^ 64) c in
        if timeout == 0
        then (http_error (codes "Lock-Timeout must be greater than 0") 400, c)
        else (lock_answer locked.0, locked.1)

    -- handleLockByName; `lock_timeout` is the header Lock-Timeout.
    unfoldable pub handle_lock_by_name : Bytes → Bytes → C → Answer × C
    handle_lock_by_name lock_timeout name c =
        lock_for name (atoi (if is_nil lock_timeout then codes "30" else lock_timeout)) c

    -- handleUnlockByName
    unfoldable pub handle_unlock_by_name : Bytes → C → Answer × C
    handle_unlock_by_name name c =
        let unlocked = unlock_var name c in (answer_or 500 unlocked.0, unlocked.1)

    -- handleDeleteByName
    unfoldable pub handle_delete_by_name : Bytes → C → Answer × C
    handle_delete_by_name name c =
        let deleted = del_var name c in (answer_or 500 deleted.0, deleted.1)

    -- The header as handleGetByName sets it.
    abbrev lock_header : Request → Bytes
    lock_header r =
        let asked = r.query (codes "locktimeout") in
        if is_nil asked then r.header (codes "Lock-Timeout") else asked

    -- handleGetByName
    unfoldable pub handle_get_by_name : Request → Bytes → C → Answer × C
    handle_get_by_name r name c =
        let action = to_lower (r.query (codes "action")) in
        if str_eq action (codes "lock")
        then handle_lock_by_name (lock_header r) name c
        else if str_eq action (codes "unlock")
        then handle_unlock_by_name name c
        else (values_answer go r name (get_vars name c), c)

    -- SetVar of a value that is no map: NewDynamicVar keeps a text as it is, encodes all else, and
    -- panics on null.
    abbrev set_text : Bytes → Bytes → C → SetJson × C
    set_text name s c = let set = set_var name s c in (set_result name set.0, set.1)

    abbrev encoded_or : Any → Option Bytes → Bytes
    encoded_or v none = sprint v
    encoded_or v (some s) = s

    unfoldable pub set_scalar : Bytes → Bytes → C → SetJson × C
    set_scalar name s c =
        let set = set_text name s c in if str_eq s (codes "null") then (set_panicked, c) else set

    -- setJson
    unfoldable pub set_json : Bytes → Fields → C → SetJson × C
    set_json parent no_fields c = (done, c)
    set_json parent (field key (object t) obj) c =
        let name = dotted parent ++ key in
        let ret = set_json name t c in
        then_set (with_context name ret.0, ret.1) (set_json parent obj)
    set_json parent (field key (scalar s) obj) c =
        then_set (set_scalar (dotted parent ++ key) s c) (set_json parent obj)
    set_json parent (field key (text s) obj) c =
        then_set (set_text (dotted parent ++ key) s c) (set_json parent obj)
    set_json parent (field key (array xs) obj) c =
        then_set (set_text (dotted parent ++ key) (encoded_or (array xs) (marshal (array xs))) c)
          (set_json parent obj)

    abbrev json_set : SetJson × C → Answer × C
    json_set (done, c) = (no_content, c)
    json_set (failed err, c) = (no_content, c)
    json_set (set_panicked, c) = (panicked, c)

    abbrev set_decoded : Option Fields → C → Answer × C
    set_decoded none c = (http_error (codes "invalid json") 400, c)
    set_decoded (some obj) c = json_set (set_json [] obj c)

    -- handlePostByName
    unfoldable pub handle_post_by_name : Request → Bytes → C → Answer × C
    handle_post_by_name r name c =
        let set = set_var name (r.body) c in
        if contains_text (r.header (codes "Content-Type")) (codes "application/json")
        then set_decoded (decode (r.body)) c
        else (answer_or 403 set.0, set.1)

    abbrev is_upgrade : Request → Bool
    is_upgrade r =
        str_eq (to_lower (r.header (codes "Connection"))) (codes "upgrade")
        && str_eq (to_lower (r.header (codes "Upgrade"))) (codes "websocket")

    -- handlePath; a websocket goes on in the read loop.
    unfoldable pub handle_path : Request → C → Answer × C
    handle_path r c =
        let name = var_name (r.path) in
        if is_nil name
        then (http_error (codes "variable path required") 404, c)
        else if is_upgrade r
        then (websocket name, c)
        else if str_eq (r.method) (codes "GET")
        then handle_get_by_name r name c
        else if str_eq (r.method) (codes "POST")
        then handle_post_by_name r name c
        else if str_eq (r.method) (codes "DELETE")
        then handle_delete_by_name name c
        else if str_eq (r.method) (codes "LOCK")
        then handle_lock_by_name (r.header (codes "Lock-Timeout")) name c
        else if str_eq (r.method) (codes "UNLOCK")
        then handle_unlock_by_name name c
        else (answer 405 [] [], c)
