-- ===== src/Vstp/Commands/Frames.antt =====
-- What is written in answer to a message: responses to its command, each one whole.
use vss.Prelude.{Bytes, codes, List, [], ◌∷◌, ◌++◌, ◌≡◌}
use vss.Vstp.Clients.{Clients}
use vss.Vstp.Commands.{
  frame, Command, set, delete, get, subscribe, unsubscribe, lock, unlock, set_json, ping, set_id,
  get_childs, lock_status_of, unknown,
}

-- The texts that make up responses to a command with an id, one after the other.
abbrev pub responses : Bytes → Bytes → List (List Bytes) → List Bytes
responses cmd cmd_id [] = []
responses cmd cmd_id (body ∷ bodies) = frame cmd cmd_id body ++ responses cmd cmd_id bodies

-- The texts are whole responses.
abbrev pub AreResponses : Bytes → Bytes → List Bytes → Type 0
AreResponses cmd cmd_id written =
    (bodies : List (List Bytes)) × (written ≡ responses cmd cmd_id bodies)

abbrev pub word_of : Command → Bytes
word_of set = codes "set"
word_of delete = codes "delete"
word_of get = codes "get"
word_of subscribe = codes "subscribe"
word_of unsubscribe = codes "unsubscribe"
word_of lock = codes "lock"
word_of unlock = codes "unlock"
word_of set_json = codes "setjson"
word_of ping = codes "ping"
word_of set_id = codes "setid"
word_of get_childs = codes "getchilds"
word_of lock_status_of = codes "lockstatus"
word_of unknown = []

-- Every word of the list is that of its command.
abbrev WordsFit : List (Bytes × Command) → Type 0
WordsFit [] = Unit
WordsFit ((w, k) ∷ words) = (word_of k ≡ w) × WordsFit words
