-- ===== src/Vstp.antt =====
-- vstp.go, `VSTP`: the lines of the protocol that a client's bytes make up.
pub mod Framing
pub mod Messages
pub mod Clients
pub mod Json
pub mod Commands
use vss.Prelude.{
  ℕ, zero, suc, Bytes, List, [], ◌∷◌, ◌++◌, Bool, true, false, ◌&&◌, ◌==◌, if◌then◌else◌, is_nil,
  length, Option, none, some,
}
use vss.Text.{cut}

-- strings.TrimRight(line, "\r")
unfoldable pub trim_cr : Bytes → Bytes
trim_cr [] = []
trim_cr (c ∷ s) = let rest = trim_cr s in if is_nil rest && c == b'\r' then [] else c ∷ rest

-- The lines that were taken, and what stays in the buffer.
abbrev take_or_stop :
    Bytes → Option (Bytes × Bytes) → (Bytes → List Bytes × Bytes) → List Bytes × Bytes
take_or_stop buf none more = ([], buf)
take_or_stop buf (some (line, rest)) more = (trim_cr line ∷ (more rest).0, (more rest).1)

-- The loop of SetOnClientData; each round takes at least one byte off the buffer.
unfoldable pub take_lines : ℕ → Bytes → List Bytes × Bytes
take_lines zero buf = ([], buf)
take_lines (suc fuel) buf = take_or_stop buf (cut b'\n' buf) (take_lines fuel)

-- SetOnClientData for a known client: its buffer and the new bytes give the lines to process and the
-- buffer afterwards.
unfoldable pub on_client_data : Bytes → Bytes → List Bytes × Bytes
on_client_data buf bytes = take_lines (length (buf ++ bytes)) (buf ++ bytes)

-- One call for each piece of the bytes that the network delivers.
unfoldable pub on_pieces : Bytes → List Bytes → List Bytes × Bytes
on_pieces buf [] = ([], buf)
on_pieces buf (piece ∷ pieces) =
    let first = on_client_data buf piece in
    let rest = on_pieces first.1 pieces in (first.0 ++ rest.0, rest.1)
