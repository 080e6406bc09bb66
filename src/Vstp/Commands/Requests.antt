-- ===== src/Vstp/Commands/Requests.antt =====
-- Requests as a client writes them, and what they make the server do.
use vss.Prelude.{ℕ, Bytes, codes, [], ◌∷◌, ◌++◌, ◌≡◌, refl, false, is_nil, str_eq}
use vss.Prelude.Int.{ℤ}
use vss.Prelude.Dict.{find}
use vss.Text.{contains, trim_space, trim_left, trim_right, is_space}
use vss.Vstp.Json.{Members}
use vss.Vstp.Messages.{is_separator, protocol_message}
use vss.Vstp.Messages.RoundTrip.{has_separator, separate_at, separate-protocol_message}
use vss.Vstp.Clients.{Clients}
use vss.Vstp.Commands.{
  IController, frame, outcome, command_of, set, do_set, do_command, process_received_message,
}

set_word : command_of (trim_space (codes "set")) ≡ set
unfolding command_of find str_eq trim_space trim_left trim_right is_space
set_word = refl

module _ {C : Type 0} (ctrl : IController C) (decode : Bytes → Members) (now : ℤ) where
  open ctrl use {set_var}

  -- A request to set a variable calls SetVar once, with the name and the value as the client gave
  -- them, and answers with one response that tells of its outcome. The name is not empty and holds
  -- no separator, the value may hold any, and the text of both has no white space at its ends.
  pub process_received_message_set :
      (cli : ℕ) (cmd_id name val : Bytes) (v : Clients) (c : C)
      → has_separator cmd_id ≡ false
      → has_separator name ≡ false
      → is_nil name ≡ false
      → trim_space (name ++ b'=' ∷ val) ≡ name ++ b'=' ∷ val
      → process_received_message ctrl decode now cli
          (protocol_message (codes "set") cmd_id (name ++ b'=' ∷ val))
          v
          c
        ≡ record {
          written =
              frame
                (codes "set")
                cmd_id
                (outcome cmd_id (codes "error: set error: ") (set_var name val c).0 ∷ []);
          clients = v;
          ctrl = (set_var name val c).1;
        }
  unfolding process_received_message do_command do_set
  process_received_message_set cli cmd_id name val v c h k n e =
      rw
        (
          separate-protocol_message (codes "set") cmd_id (name ++ b'=' ∷ val)
              (unfold contains in refl) (unfold is_separator in refl) h,
          e,
          set_word,
          separate_at b'=' name val (unfold is_separator in refl) k,
          n,
        )
        refl
