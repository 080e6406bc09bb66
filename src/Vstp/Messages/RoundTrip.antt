-- ===== src/Vstp/Messages/RoundTrip.antt =====
-- A message that is written is taken apart into what it was written from.
use vss.Prelude.{ℕ, Bytes, [], ◌∷◌, ◌++◌, ◌≡◌, refl, ap, Bool, true, false, ◌||◌, arith}
use vss.Text.{contains, cut_at_first, cut_lacking}
use vss.Vstp.Messages.{
  is_separator, separate_key_and_value, trim_close, separate_name_and_metadata,
  separate_command_id_and_payload, command_with_id, protocol_message,
}

-- A text holds no separator of a key and a value.
abbrev pub has_separator : Bytes → Bool
has_separator [] = false
has_separator (c ∷ s) = is_separator c || has_separator s

has_separator-append : (s t : Bytes) → has_separator (s ++ t) ≡ (has_separator s || has_separator t)
has_separator-append [] t = refl
has_separator-append (c ∷ s) t = rw (has_separator-append s t) (ground arith)

pub separate_at :
    (b : ℕ) (k v : Bytes)
    → is_separator b ≡ true
    → has_separator k ≡ false
    → separate_key_and_value (k ++ b ∷ v) ≡ (k, v)
unfolding separate_key_and_value
separate_at b [] v e h = rw e refl
separate_at b (c ∷ k) v e h =
    let here : is_separator c ≡ false = ground arith in
    let later : has_separator k ≡ false = ground arith in rw (here, separate_at b k v e later) refl

trim_close-append : (s : Bytes) → trim_close (s ++ b')' ∷ []) ≡ s
unfolding trim_close
trim_close-append [] = refl
trim_close-append (c ∷ []) = refl
trim_close-append (c ∷ d ∷ s) = ap (λ t. c ∷ t) (trim_close-append (d ∷ s))

separate_command :
    (cmd cmd_id : Bytes)
    → contains cmd b'(' ≡ false
    → separate_name_and_metadata (command_with_id cmd cmd_id) ≡ (cmd, cmd_id)
unfolding separate_name_and_metadata
separate_command cmd [] h = rw (cut_lacking b'(' cmd h) refl
separate_command cmd (c ∷ cmd_id) h =
    rw (cut_at_first b'(' cmd ((c ∷ cmd_id) ++ b')' ∷ []) h)
      (ap (λ m. (cmd, m)) (trim_close-append (c ∷ cmd_id)))

has_separator-command :
    (cmd cmd_id : Bytes)
    → has_separator cmd ≡ false
    → has_separator cmd_id ≡ false
    → has_separator (command_with_id cmd cmd_id) ≡ false
unfolding is_separator
has_separator-command cmd [] h k = h
has_separator-command cmd (c ∷ cmd_id) h k =
    rw (has_separator-append cmd, h, has_separator-append (c ∷ cmd_id), k) refl

-- A message that protocolWrite makes is taken apart into its command, its id and its payload,
-- whatever the payload holds; the command and the id hold no separator, and the command no
-- parenthesis.
pub separate-protocol_message :
    (cmd cmd_id payload : Bytes)
    → contains cmd b'(' ≡ false
    → has_separator cmd ≡ false
    → has_separator cmd_id ≡ false
    → separate_command_id_and_payload (protocol_message cmd cmd_id payload) ≡ (cmd, cmd_id, payload)
unfolding separate_command_id_and_payload protocol_message
separate-protocol_message cmd cmd_id payload h k l =
    rw
      (
        separate_at b':' (command_with_id cmd cmd_id) payload (unfold is_separator in refl)
            (has_separator-command cmd cmd_id k l),
        separate_command cmd cmd_id h,
      )
      refl
