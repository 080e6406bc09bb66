-- ===== src/Vstp/Messages.antt =====
-- vstp.go: how a message is written and how a received one is taken apart.
pub mod RoundTrip
use vss.Prelude.{
  ℕ, Bytes, codes, List, [], ◌∷◌, ◌++◌, Bool, true, false, ◌||◌, ◌==◌, if◌then◌else◌, is_nil,
  Option, none, some,
}
use vss.Text.{cut}

-- strings.ContainsAny(string(c), "=;: ")
unfoldable pub is_separator : ℕ → Bool
is_separator c = c == b'=' || c == b';' || c == b':' || c == b' '

unfoldable pub separate_key_and_value : Bytes → Bytes × Bytes
separate_key_and_value [] = ([], [])
separate_key_and_value (c ∷ s) =
    let later = separate_key_and_value s in
    if is_separator c then ([], s) else (c ∷ later.0, later.1)

-- strings.TrimSuffix(meta, ")")
unfoldable pub trim_close : Bytes → Bytes
trim_close [] = []
trim_close (c ∷ []) = if c == b')' then [] else c ∷ []
trim_close (c ∷ d ∷ s) = c ∷ trim_close (d ∷ s)

abbrev name_and_meta : Bytes → Option (Bytes × Bytes) → Bytes × Bytes
name_and_meta original none = (original, [])
name_and_meta original (some (name, meta)) = (name, trim_close meta)

unfoldable pub separate_name_and_metadata : Bytes → Bytes × Bytes
separate_name_and_metadata original = name_and_meta original (cut b'(' original)

unfoldable pub separate_command_id_and_payload : Bytes → Bytes × Bytes × Bytes
separate_command_id_and_payload s =
    let with_id = separate_key_and_value s in
    let command = separate_name_and_metadata with_id.0 in (command.0, command.1, with_id.1)

abbrev pub command_with_id : Bytes → Bytes → Bytes
command_with_id cmd [] = cmd
command_with_id cmd (c ∷ cmd_id) = cmd ++ b'(' ∷ ((c ∷ cmd_id) ++ b')' ∷ [])

-- What protocolWrite sends, without the end of line.
unfoldable pub protocol_message : Bytes → Bytes → Bytes → Bytes
protocol_message cmd cmd_id payload = command_with_id cmd cmd_id ++ b':' ∷ payload

-- What NotifyClient sends of a variable: its name, its metadata if there is one, and its value.
unfoldable pub var_changed : Bytes → Bytes → Bytes → Bytes
var_changed name meta value =
    (if is_nil meta then name else name ++ b'(' ∷ (meta ++ b')' ∷ [])) ++ b'=' ∷ value

abbrev version_message : Option Bytes → List Bytes
version_message none = []
version_message (some version) =
    protocol_message (codes "serverinfo") [] (codes "VSS VERSION=" ++ version) ∷ []

-- sentInitialHeaders; `version` is the controller's, if there is one.
unfoldable pub sent_initial_headers : Option Bytes → Bytes → List Bytes
sent_initial_headers version uid =
    protocol_message (codes "beginserverheaders") [] []
    ∷ protocol_message (codes "serverinfo") [] (codes "PROTOCOL VERSION=2.0.0")
    ∷ (version_message version
        ++ protocol_message (codes "sugestednewid") [] uid
          ∷ protocol_message (codes "endserverheaders") [] []
          ∷ [])
