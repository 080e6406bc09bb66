-- ===== src/Client/Session.antt =====
-- vsscli.go: how a session starts, what runs under a lock, and the names of childs.
use vss.Prelude.{
  Bytes, codes, List, [], ◌∷◌, ◌++◌, ◌≡◌, refl, Bool, true, false, ◌&&◌, ◌||◌, not, Option, none,
  some, str_eq, is_nil, if◌then◌else◌, All,
}
use vss.Prelude.Dict.{find, store}
use vss.Text.{cut, split, contains, contains_text}
use vss.Vstp.Messages.{protocol_message, sent_initial_headers}
use vss.Client.{
  Pack, pack_from_cmd_and_payload, process_received_pack, handle_new_data, sending_error,
}
use vss.Client.Answers.{transmit, received, handle_new_data-transmit}

-- readHeaders: the headers when the last one came in time; serverHeaders keeps what was there.
unfoldable pub read_headers : List Pack → List (Bytes × Bytes) → Bool × List (Bytes × Bytes)
read_headers [] headers = (false, headers)
read_headers (pack ∷ packs) headers =
    let kept = store str_eq (pack.cmd) (pack.payload) headers in
    if str_eq (pack.cmd) (codes "endserverheaders")
    then (true, headers)
    else read_headers packs
        (if str_eq (pack.cmd) (codes "beginserverheaders") then headers else kept)

abbrev suggested : Bytes → Option Bytes → Option Bytes × Bytes × List Bytes
suggested client_id none = (some (codes "suggested id send by server was not found"), client_id, [])
suggested client_id (some id) = (none, id, pack_from_cmd_and_payload (codes "setid") id ∷ [])

-- exchangeIds: its error, the client's id afterwards, and what is sent.
unfoldable pub exchange_ids :
    Bytes → Bool → List (Bytes × Bytes) → Option Bytes × Bytes × List Bytes
exchange_ids client_id vss_reuse_id headers =
    if is_nil client_id || not vss_reuse_id
    then suggested client_id (find str_eq (codes "sugestednewid") headers)
    else (none, client_id, pack_from_cmd_and_payload (codes "setid") client_id ∷ [])

-- What RunLocked does.
pub data Call : Type 0 where
  locking : Bytes → Call
  callback : Call
  unlocking : Bytes → Call

abbrev unlocked : Bytes → Option Bytes → Option Bytes × List Call
unlocked name err =
    (sending_error (codes "error unlocking the variable: ") err, callback ∷ unlocking name ∷ [])

abbrev ran : Bytes → Option Bytes → Option Bytes → Option Bytes × List Call
ran name none err = unlocked name err
ran name (some failure) err =
    (some (codes "error running the locked code: " ++ failure), callback ∷ [])

abbrev after_lock :
    Bool → Option Bytes → Option Bytes × List Call → Bytes → Option Bytes × List Call
after_lock true (some err) run name =
    (some (codes "error locking the variable: " ++ err), locking name ∷ [])
after_lock true none run name = (run.0, locking name ∷ run.1)
after_lock false err run name = (run.0, locking name ∷ run.1)

-- RunLocked, with the errors of Lock, of the callback and of Unlock: its error, and the calls. Lock and
-- Unlock put the prefix in front of the name once more.
unfoldable pub run_locked :
    Bytes → Bytes → Bool → Option Bytes → Option Bytes → Option Bytes → Option Bytes × List Call
run_locked prefix lock_name fail_on_lock_timeout lock_err callback_err unlock_err =
    let name = prefix ++ (prefix ++ lock_name) in
    after_lock fail_on_lock_timeout lock_err (ran name callback_err unlock_err) name

-- The loop of GetChildNames: whether it is done, and the last names that came.
unfoldable pub get_childs : Bytes → List Bytes → List Pack → Bool × List Bytes
get_childs parent_name result [] = (false, result)
get_childs parent_name result (pack ∷ packs) =
    let names = split b',' (pack.payload) in
    let ended =
      str_eq (pack.cmd) (codes "endresponse")
      && contains_text (pack.payload) (codes "getchilds")
      && contains_text (pack.payload) parent_name in
    if ended
    then (true, result)
    else get_childs parent_name (if str_eq (pack.cmd) (codes "childs") then names else result) packs

abbrev child_names : Option Bytes → Bool × List Bytes → Option Bytes × List Bytes
child_names sent (true, result) =
    (sending_error (codes "error sending 'GetChilds' command to the server: ") sent, result)
child_names sent (false, result) = (some (codes "timeout reached"), result)

-- GetChildNames
unfoldable pub get_child_names :
    Bytes → Bytes → Option Bytes → List Pack → Option Bytes × List Bytes
get_child_names prefix parent_name sent packs =
    child_names sent (get_childs (prefix ++ parent_name) [] packs)

-- A text of one line.
abbrev pub IsLine : Bytes → Type 0
IsLine s = contains s b'\n' ≡ false

abbrev pub IsVersion : Option Bytes → Type 0
IsVersion none = Unit
IsVersion (some version) = IsLine version

headers_are_lines :
    (version : Option Bytes) (uid : Bytes)
    → IsVersion version
    → IsLine uid
    → All IsLine (sent_initial_headers version uid)
unfolding sent_initial_headers protocol_message contains
headers_are_lines none uid hv h = (refl, (refl, (h, (refl, tt))))
headers_are_lines (some version) uid hv h = (refl, (refl, (hv, (h, (refl, tt)))))

-- The headers that the server sends, over the wire, give a client that has no id the id that the server
-- suggests, and it confirms that id; the version and the id are of one line.
pub exchange_ids-sent_initial_headers :
    (version : Option Bytes) (uid : Bytes) (reuse : Bool)
    → IsVersion version
    → IsLine uid
    → (let packs = (handle_new_data [] (transmit (sent_initial_headers version uid))).0 in
        let headers = read_headers packs [] in
        (headers.0 ≡ true)
        × (exchange_ids [] reuse headers.1
            ≡ (none, uid, pack_from_cmd_and_payload (codes "setid") uid ∷ [])))
unfolding sent_initial_headers read_headers exchange_ids received process_received_pack cut
    protocol_message str_eq store find
exchange_ids-sent_initial_headers none uid reuse hv h =
    rw (handle_new_data-transmit (sent_initial_headers none uid) (headers_are_lines none uid hv h))
      (refl, refl)
exchange_ids-sent_initial_headers (some version) uid reuse hv h =
    rw
      (handle_new_data-transmit (sent_initial_headers (some version) uid)
        (headers_are_lines (some version) uid hv h))
      (refl, refl)
