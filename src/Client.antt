-- ===== src/Client.antt =====
-- vsscli.go, `VssCli`: what the client library sends, and how it takes what it receives. The packs that
-- come before a timeout are an argument. `func_text` is what fmt.Sprintf("%v") makes of a function:
-- GetVar and the observers build their values by NewDynamicVar of an option, not by NewDynamicVar2.
pub mod Answers
pub mod Observing
pub mod Session
pub mod Queue
use vss.Prelude.{
  ℕ, zero, suc, Bytes, codes, List, [], ◌∷◌, ◌++◌, Bool, true, false, ◌&&◌, Option, none, some,
  str_eq, is_nil, if◌then◌else◌, length, not, ◌==◌,
}
use vss.Prelude.Int.{ℤ}
use vss.DynamicVar.{itoa}
use vss.Text.{cut, split, contains_text}

-- vssCmdAndPayload
pub record Pack : Type 0 where
  pub cmd : Bytes
  pub payload : Bytes

-- packFromCmdAndPayload
unfoldable pub pack_from_cmd_and_payload : Bytes → Bytes → Bytes
pack_from_cmd_and_payload cmd payload = cmd ++ b':' ∷ (payload ++ b'\n' ∷ [])

-- packFromCmdVarnameAndValue
unfoldable pub pack_from_cmd_varname_and_value : Bytes → Bytes → Bytes → Bytes
pack_from_cmd_varname_and_value cmd varname value =
    cmd ++ b':' ∷ (varname ++ b'=' ∷ (value ++ b'\n' ∷ []))

abbrev pack_of : Option (Bytes × Bytes) → Option Pack
pack_of none = none
pack_of (some (action, payload)) = some (record { cmd = action; payload = payload })

-- processReceivedPack: what goes to OnCommandReceived; a pack without a colon is left out.
unfoldable pub process_received_pack : Bytes → Option Pack
process_received_pack pack = pack_of (cut b':' pack)

abbrev add_pack : Option Pack → List Pack → List Pack
add_pack none packs = packs
add_pack (some pack) packs = pack ∷ packs

abbrev pack_or_stop :
    Bytes → Option (Bytes × Bytes) → (Bytes → List Pack × Bytes) → List Pack × Bytes
pack_or_stop sbuffer none more = ([], sbuffer)
pack_or_stop sbuffer (some (pack, rest)) more =
    (add_pack (process_received_pack pack) (more rest).0, (more rest).1)

-- The loop of handleNewData; each round takes at least one byte off the buffer.
unfoldable pub take_packs : ℕ → Bytes → List Pack × Bytes
take_packs zero sbuffer = ([], sbuffer)
take_packs (suc fuel) sbuffer = pack_or_stop sbuffer (cut b'\n' sbuffer) (take_packs fuel)

-- handleNewData: the packs, and sbuffer afterwards.
unfoldable pub handle_new_data : Bytes → Bytes → List Pack × Bytes
handle_new_data sbuffer bytes = take_packs (length (sbuffer ++ bytes)) (sbuffer ++ bytes)

-- subscribeOnCommandWithATimeout: whether `f` is done with one of the packs.
unfoldable pub is_done : (Pack → Bool) → List Pack → Bool
is_done f [] = false
is_done f (pack ∷ packs) = if f pack then true else is_done f packs

-- The functions that a call waits with. SetVar and DeleteVar look for the pack they sent.
unfoldable pub ends_with_pack : Bytes → Pack → Bool
ends_with_pack dt pack =
    str_eq (pack.cmd) (codes "endresponse") && contains_text (pack.payload ++ b'\n' ∷ []) dt

unfoldable pub is_unlocked : Bytes → Pack → Bool
is_unlocked lock_name pack =
    str_eq (pack.cmd) (codes "unlockdone") && contains_text (pack.payload ++ b'\n' ∷ []) lock_name

unfoldable pub is_lock_result : Bytes → Pack → Bool
is_lock_result lock_name pack =
    str_eq (pack.cmd) (codes "lockresult") && contains_text (pack.payload) lock_name

abbrev timed_out : Bytes → Option Bytes → Bool → Option Bytes
timed_out text err true = err
timed_out text err false = some text

abbrev sending_error : Bytes → Option Bytes → Option Bytes
sending_error text none = none
sending_error text (some err) = some (text ++ err)

-- SetVar and DeleteVar, with the error of sendToServer and the packs that came in time: the error that
-- is returned.
unfoldable pub set_var : Bytes → Bytes → Bytes → Option Bytes → List Pack → Option Bytes
set_var prefix name value sent packs =
    timed_out (codes "SetVar command timeout reached")
      (sending_error (codes "error sending 'SetVar' command to the server: ") sent)
      (is_done
        (ends_with_pack (pack_from_cmd_varname_and_value (codes "set") (prefix ++ name) value))
        packs)

unfoldable pub delete_var : Bytes → Bytes → Option Bytes → List Pack → Option Bytes
delete_var prefix name sent packs =
    timed_out (codes "DeleteVar command timeout reached")
      (sending_error (codes "error sending 'DeleteVar' command to the server: ") sent)
      (is_done
        (ends_with_pack (pack_from_cmd_varname_and_value (codes "delete") (prefix ++ name) []))
        packs)

-- Unlock
unfoldable pub unlock : Bytes → Bytes → Option Bytes → List Pack → Option Bytes
unlock prefix lock_name sent packs =
    timed_out (codes "UnlockVar command timeout reached")
      (sending_error (codes "error sending 'UnlockVar' command to the server: ") sent)
      (is_done (is_unlocked (prefix ++ lock_name)) packs)

-- The first pack that tells of the lock: without "success" it sets returnError.
unfoldable pub lock_outcome : Bytes → Option Bytes → List Pack → Option Bytes
lock_outcome lock_name sent [] = some (codes "LockVar command timeout reached")
lock_outcome lock_name sent (pack ∷ packs) =
    let later = lock_outcome lock_name sent packs in
    if not (is_lock_result lock_name pack)
    then later
    else if contains_text (pack.payload) (codes "success")
    then sending_error (codes "error sending 'LockVar' command to the server: ") sent
    else some (codes "error locking var: " ++ lock_name)

-- Lock
unfoldable pub lock : Bytes → Bytes → Option Bytes → List Pack → Option Bytes
lock prefix lock_name sent packs = lock_outcome (prefix ++ lock_name) sent packs

-- name[0:wilfPos]
unfoldable pub before_star : Bytes → Bytes
before_star [] = []
before_star (c ∷ s) = if c == b'*' then [] else c ∷ before_star s

-- misc.SeparateKeyAndValue: the first of the separators that stands in the text parts it.
abbrev parted : Bytes → Option (Bytes × Bytes) → Bytes × Bytes → Bytes × Bytes
parted pair none later = later
parted pair (some parts) later = parts

unfoldable pub separate_by : Bytes → Bytes → Bytes × Bytes
separate_by pair [] = (pair, [])
separate_by pair (c ∷ seps) = parted pair (cut c pair) (separate_by pair seps)

-- The loop of GetVar: whether it is done, and the keys and values that were found.
unfoldable pub get_values : Bytes → Bytes → List Pack → Bool × List (Bytes × Bytes)
get_values func_text name [] = (false, [])
get_values func_text name (pack ∷ packs) =
    let stem = before_star name in
    let rest = get_values func_text name packs in
    let after = get_values func_text stem packs in
    let ended =
      str_eq (pack.cmd) (codes "endresponse")
      && contains_text (pack.payload) (codes "get")
      && contains_text (pack.payload) name in
    if ended
    then (true, [])
    else if not (str_eq (pack.cmd) (codes "varvalue"))
    then rest
    else if contains_text (pack.payload) stem
    then (after.0, ((separate_by (pack.payload) (codes "=:; ")).0, func_text) ∷ after.1)
    else after

abbrev got : Option Bytes → Bool × List (Bytes × Bytes) → Option Bytes × List (Bytes × Bytes)
got sent (true, result) =
    (sending_error (codes "error sending 'GetVar' command to the server: ") sent, result)
got sent (false, result) = (some (codes "timeout reached"), result)

-- GetVar
unfoldable pub get_var :
    Bytes → Bytes → Bytes → Option Bytes → List Pack → Option Bytes × List (Bytes × Bytes)
get_var func_text prefix name sent packs = got sent (get_values func_text (prefix ++ name) packs)
