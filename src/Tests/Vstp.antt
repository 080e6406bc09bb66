-- ===== src/Tests/Vstp.antt =====
-- sources/services/apis/vstp/vstp.go at concrete inputs.
use vss.Prelude.{Bytes, codes, List, [], ◌∷◌, ◌≡◌, refl}
use vss.Text.{contains}
use vss.Vstp.Messages.{is_separator, protocol_message, separate_command_id_and_payload}
use vss.Vstp.Messages.RoundTrip.{separate-protocol_message}
use vss.Vstp.{on_client_data, on_pieces}
use vss.Vstp.Framing.{joined, on_pieces-joined}

abbrev three_pieces : List Bytes
three_pieces = codes "t:lamp=o" ∷ (b'n' ∷ b'\r' ∷ b'\n' ∷ []) ∷ codes "get" ∷ []

on_pieces-joined_example :
    on_pieces (codes "se") three_pieces ≡ on_client_data (codes "se") (joined three_pieces)
on_pieces-joined_example =
    on_pieces-joined (codes "se") (codes "t:lamp=o")
      ((b'n' ∷ b'\r' ∷ b'\n' ∷ []) ∷ codes "get" ∷ [])

separate-protocol_message_example :
    separate_command_id_and_payload
      (protocol_message (codes "set") (codes "17") (codes "room.lamp=on"))
    ≡ (codes "set", codes "17", codes "room.lamp=on")
separate-protocol_message_example =
    separate-protocol_message (codes "set") (codes "17") (codes "room.lamp=on")
      (unfold contains in refl) (unfold is_separator in refl) (unfold is_separator in refl)
