-- ===== src/Vstp/Commands/Lines.antt =====
-- vstp.go, SetOnClientData: the lines that a client's bytes complete, each processed as a message. The
-- goroutines of the lines are run one after the other.
use vss.Prelude.{
  ℕ, zero, suc, Bytes, List, [], ◌∷◌, ◌++◌, ◌≡◌, refl, ap, append-nil, length, length-append, arith,
  false,
}
use vss.Prelude.Int.{ℤ}
use vss.Text.{contains, cut, cut_at_first}
use vss.Vstp.{trim_cr, take_lines, on_client_data}
use vss.Vstp.Json.{Members}
use vss.Vstp.Clients.{Clients}
use vss.Vstp.Commands.{IController, Reply, process_received_message}

-- A message that the framing delivers as it is.
pub record IsOneLine (message : Bytes) : Type 0 where
  pub no_end : contains message b'\n' ≡ false
  pub no_return : trim_cr message ≡ message

module _ {C : Type 0} (ctrl : IController C) (decode : Bytes → Members) (now : ℤ) where
  abbrev and_then : Reply C → (Clients → C → Reply C) → Reply C
  and_then first more =
      let rest = more first.clients first.ctrl in
      record { written = first.written ++ rest.written; clients = rest.clients; ctrl = rest.ctrl }

  unfoldable pub process_lines : ℕ → List Bytes → Clients → C → Reply C
  process_lines cli [] v c = record { written = []; clients = v; ctrl = c }
  process_lines cli (line ∷ lines) v c =
      and_then (process_received_message ctrl decode now cli line v c) (process_lines cli lines)

  -- SetOnClientData, for a client whose buffer is empty.
  unfoldable pub process_bytes : ℕ → Bytes → Clients → C → Reply C
  process_bytes cli bytes v c = process_lines cli (on_client_data [] bytes).0 v c

  one_line :
      (fuel : ℕ) (message : Bytes)
      → IsOneLine message
      → take_lines (suc fuel) (message ++ b'\n' ∷ []) ≡ (message ∷ [], [])
  unfolding take_lines cut
  one_line zero message h = rw (cut_at_first b'\n' message [] h.no_end, h.no_return) refl
  one_line (suc fuel) message h = rw (cut_at_first b'\n' message [] h.no_end, h.no_return) refl

  pub process_bytes-line :
      (cli : ℕ) (message : Bytes) (v : Clients) (c : C)
      → IsOneLine message
      → process_bytes cli (message ++ b'\n' ∷ []) v c
        ≡ process_received_message ctrl decode now cli message v c
  unfolding process_bytes on_client_data process_lines
  process_bytes-line cli message v c h =
      let long : length (message ++ b'\n' ∷ []) ≡ suc (length message) =
        omega (arith, length-append message (b'\n' ∷ [])) in
      rw (long, one_line (length message) message h) (whole_reply _)
    where
      whole_reply :
          (r : Reply C)
          → record { written = r.written ++ []; clients = r.clients; ctrl = r.ctrl } ≡ r
      whole_reply r =
          ap (λ w. record { written = w; clients = r.clients; ctrl = r.ctrl })
            (append-nil r.written)
