-- ===== src/Client/Answers.antt =====
-- vsscli.go and vstp.go: the client library with the server's answers.
use vss.Prelude.{
  ℕ, zero, suc, ◌≤◌, Bytes, codes, List, [], ◌∷◌, ◌++◌, ◌≡◌, refl, true, false, Option, none, some,
  arith, All, length, is_nil, str_eq,
}
use vss.Prelude.Int.{ℤ}
use vss.Text.{
  cut, contains, contains_text, contains_text-append, trim_left, trim_right, is_space, cut_at_first,
  trim_space, has_prefix, length-cut,
}
use vss.Prelude.Dict.{find}
use vss.Vstp.Json.{Members}
use vss.Vstp.Clients.{Clients}
use vss.Vstp.Messages.{
  is_separator, separate_key_and_value, separate_command_id_and_payload, separate_name_and_metadata,
  protocol_message,
}
use vss.Vstp.Messages.RoundTrip.{has_separator, separate_at}
use vss.Vstp.Commands.{
  IController, process_received_message, outcome, frame, error_message, success_message, do_set,
  do_unlock, command_of, do_command,
}
use vss.Vstp.Commands.Lines.{IsOneLine, process_bytes, process_bytes-line}
use vss.Client.{
  Pack, pack_from_cmd_varname_and_value, process_received_pack, take_packs, handle_new_data,
  is_done, ends_with_pack, set_var, add_pack, unlock, is_unlocked,
}

-- The messages as they go over the wire.
unfoldable pub transmit : List Bytes → Bytes
transmit [] = []
transmit (m ∷ ms) = m ++ b'\n' ∷ transmit ms

unfoldable pub received : List Bytes → List Pack
received [] = []
received (m ∷ ms) = add_pack (process_received_pack m) (received ms)

take_packs-transmit :
    (fuel : ℕ) (ms : List Bytes)
    → length (transmit ms) ≤ fuel
    → All (λ m. contains m b'\n' ≡ false) ms
    → take_packs fuel (transmit ms) ≡ (received ms, [])
unfolding take_packs transmit received
take_packs-transmit zero [] h a = refl
take_packs-transmit zero (m ∷ ms) h (ha, later_ok) =
    let e = cut_at_first b'\n' m (transmit ms) ha in
    let less = length-cut b'\n' (m ++ b'\n' ∷ transmit ms) m (transmit ms) e in absurd (omega arith)
take_packs-transmit (suc fuel) [] h a = unfold cut in refl
take_packs-transmit (suc fuel) (m ∷ ms) h (ha, later_ok) =
    let e = cut_at_first b'\n' m (transmit ms) ha in
    let less = length-cut b'\n' (m ++ b'\n' ∷ transmit ms) m (transmit ms) e in
    let later = take_packs-transmit fuel ms (omega arith) later_ok in rw (e, later) refl

-- Messages without an end of line are received as the packs that they are, and nothing stays in the
-- buffer.
pub handle_new_data-transmit :
    (ms : List Bytes)
    → All (λ m. contains m b'\n' ≡ false) ms
    → handle_new_data [] (transmit ms) ≡ (received ms, [])
unfolding handle_new_data
handle_new_data-transmit ms h = take_packs-transmit (length (transmit ms)) ms (omega arith) h

-- No answer to SET holds the pack that was sent.
error_is_missed :
    (name value text : Bytes)
    → is_done
        (ends_with_pack (pack_from_cmd_varname_and_value (codes "set") name value))
        (received (frame (codes "set") [] (error_message [] text ∷ [])))
      ≡ false
unfolding received is_done frame process_received_pack cut protocol_message ends_with_pack str_eq
    contains_text pack_from_cmd_varname_and_value
error_is_missed name value text = refl

success_is_missed :
    (name value : Bytes)
    → is_done
        (ends_with_pack (pack_from_cmd_varname_and_value (codes "set") name value))
        (received (frame (codes "set") [] (success_message [] ∷ [])))
      ≡ false
unfolding received is_done frame process_received_pack cut protocol_message ends_with_pack str_eq
    contains_text pack_from_cmd_varname_and_value
success_is_missed name value = refl

outcome_is_missed :
    (name value before : Bytes) (o : Option Bytes)
    → is_done
        (ends_with_pack (pack_from_cmd_varname_and_value (codes "set") name value))
        (received (frame (codes "set") [] (outcome [] before o ∷ [])))
      ≡ false
outcome_is_missed name value before none = success_is_missed name value
outcome_is_missed name value before (some err) = error_is_missed name value (before ++ err)

has_prefix_self : (s : Bytes) → has_prefix s s ≡ true
unfolding has_prefix
has_prefix_self [] = refl
has_prefix_self (c ∷ s) = ground (arith, has_prefix_self s)

contains_text_self : (s : Bytes) → contains_text s s ≡ true
unfolding contains_text has_prefix
contains_text_self [] = refl
contains_text_self (c ∷ s) = rw (has_prefix_self (c ∷ s)) refl

unlock_answer :
    (prefix name : Bytes)
    → unlock prefix name none (
        received (
          frame
            (codes "unlock")
            []
            (protocol_message (codes "unlockdone") [] (prefix ++ name) ∷ [])))
      ≡ none
unfolding unlock is_done is_unlocked received frame process_received_pack cut protocol_message
    str_eq
unlock_answer prefix name =
    let held =
      contains_text-append (prefix ++ name) (b'\n' ∷ []) (prefix ++ name)
        (contains_text_self (prefix ++ name)) in
    rw held refl

-- The line that the server takes from a pack of the client.
abbrev pub line_of : Bytes → Bytes → Bytes → Bytes
line_of cmd name value = cmd ++ b':' ∷ (name ++ b'=' ∷ value)

module _ {C : Type 0} (ctrl : IController C) (decode : Bytes → Members) (now : ℤ) where
  set_line :
      (cli : ℕ) (name value : Bytes) (v : Clients) (c : C)
      → process_received_message ctrl decode now cli (line_of (codes "set") name value) v c
        ≡ do_set ctrl decode now [] (trim_space (name ++ b'=' ∷ value)) v c
  unfolding process_received_message do_command separate_key_and_value command_of trim_space find
      trim_right str_eq trim_left separate_command_id_and_payload separate_name_and_metadata cut
      is_separator is_space
  set_line cli name value v c = refl

  -- SetVar never returns in time: the server gets the line, sets the variable and answers, and the client
  -- waits for an answer that holds the pack it sent, which none does. The name is not empty and has no
  -- separator, the server's trimming changes nothing of what is sent, and the pack is one line, so that
  -- the value has no end of line.
  pub set_var-process_received_message :
      (cli : ℕ) (prefix name value : Bytes) (sent : Option Bytes) (v : Clients) (c : C)
      → is_nil (prefix ++ name) ≡ false
      → has_separator (prefix ++ name) ≡ false
      → trim_space ((prefix ++ name) ++ b'=' ∷ value) ≡ (prefix ++ name) ++ b'=' ∷ value
      → IsOneLine (line_of (codes "set") (prefix ++ name) value)
      → (let reply =
            process_bytes ctrl decode now cli
              (line_of (codes "set") (prefix ++ name) value ++ b'\n' ∷ [])
              v
              c in
          (set_var prefix name value sent (received (reply.written))
            ≡ some (codes "SetVar command timeout reached"))
          × (reply.ctrl ≡ (ctrl.set_var (prefix ++ name) value c).1))
  unfolding set_var do_set is_separator
  set_var-process_received_message cli prefix name value sent v c n h t line =
      rw
        (
          process_bytes-line ctrl decode now cli (line_of (codes "set") (prefix ++ name) value) v c
              line,
          set_line cli (prefix ++ name) value v c,
          t,
          separate_at b'=' (prefix ++ name) value refl h,
          n,
        )
        (
          rw
              (outcome_is_missed (prefix ++ name) value (codes "error: set error: ")
                (ctrl.set_var (prefix ++ name) value c).0)
              refl,
          refl,
        )

  unlock_line :
      (cli : ℕ) (name : Bytes) (v : Clients) (c : C)
      → process_received_message ctrl decode now cli (line_of (codes "unlock") name []) v c
        ≡ do_unlock ctrl decode now [] (trim_space (name ++ b'=' ∷ [])) v c
  unfolding process_received_message do_command separate_key_and_value command_of trim_space find
      trim_right str_eq trim_left separate_command_id_and_payload separate_name_and_metadata cut
      is_separator is_space
  unlock_line cli name v c = refl

  -- Unlock succeeds, for a name without separators that the server's trimming leaves alone and that fits
  -- one line: the server gets the line and unlocks that name, and the client takes its answer.
  pub unlock-process_received_message :
      (cli : ℕ) (prefix name : Bytes) (v : Clients) (c : C)
      → has_separator (prefix ++ name) ≡ false
      → trim_space ((prefix ++ name) ++ b'=' ∷ []) ≡ (prefix ++ name) ++ b'=' ∷ []
      → IsOneLine (line_of (codes "unlock") (prefix ++ name) [])
      → (let reply =
            process_bytes ctrl decode now cli
              (line_of (codes "unlock") (prefix ++ name) [] ++ b'\n' ∷ [])
              v
              c in
          (unlock prefix name none (received (reply.written)) ≡ none)
          × (reply.ctrl ≡ (ctrl.unlock_var (prefix ++ name) c).1))
  unfolding do_unlock is_separator
  unlock-process_received_message cli prefix name v c h t line =
      rw
        (
          process_bytes-line ctrl decode now cli (line_of (codes "unlock") (prefix ++ name) []) v c
              line,
          unlock_line cli (prefix ++ name) v c,
          t,
          separate_at b'=' (prefix ++ name) [] refl h,
        )
        (unlock_answer prefix name, refl)
