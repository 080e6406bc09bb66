-- ===== src/Logger/Log.antt =====
-- logger.go, `Logger`: the messages that Log puts into the channel. AnyToString is an argument.
use vss.Prelude.{Bytes, List, [], ◌∷◌, ◌++◌, Bool, true, false, if◌then◌else◌}
use vss.Prelude.Int.{ℤ, sub}
use vss.Logger.Common.{Clock, ends_line}

-- `message`
pub record Message (T : Type 0) : Type 0 where
  pub msg : Bytes
  pub level : ℤ
  pub name : Bytes
  pub date_time : T
  pub timezoneoffset : ℤ

-- `Logger`; `buffer` is what the channel was given and its reader has not taken, the first one first.
pub record Logger (T : Type 0) : Type 0 where
  pub use_custom_timezone : Bool
  pub custom_time_zone_offset_seconds : ℤ
  pub buffer : List (Message T)
  pub keep_next_line_opened : Bool

module _ {T M : Type 0} (clock : Clock T) (any_to_string : M → Bytes) where
  open clock use {zone, add_seconds}

  -- KeepNextLineOpened
  abbrev pub hold_line : Logger T → Logger T
  hold_line l = record l { keep_next_line_opened = true }

  abbrev after_first : List M → Bytes
  after_first [] = []
  after_first (item ∷ msgs) = 32 ∷ any_to_string item ++ after_first msgs

  abbrev joined : List M → Bytes
  joined [] = []
  joined (item ∷ msgs) = any_to_string item ++ after_first msgs

  -- The message ends with a line break, unless its line is kept open.
  abbrev pub closed : Bool → Bytes → Bytes
  closed keep msg = if keep then msg else (if ends_line msg then msg else msg ++ 10 ∷ [])

  -- The offset of the message, and its time.
  abbrev total_offset : Logger T → T → ℤ
  total_offset l now =
      if l.use_custom_timezone then sub l.custom_time_zone_offset_seconds (zone now) else zone now

  abbrev local_time : Logger T → T → T
  local_time l now = if l.use_custom_timezone then add_seconds (total_offset l now) now else now

  -- The message of a call, whose line is kept open or not.
  abbrev pub message_of : Bool → T → ℤ → Bytes → List M → Logger T → Message T
  message_of keep now level name msgs l = record {
    msg = closed keep (joined msgs);
    level = level;
    name = name;
    date_time = local_time l now;
    timezoneoffset = total_offset l now;
  }

  -- Log at the time `now`.
  unfoldable pub log : T → ℤ → Bytes → List M → Logger T → Logger T
  log now level name msgs l = record l {
    buffer = l.buffer ++ message_of l.keep_next_line_opened now level name msgs l ∷ [];
    keep_next_line_opened = false;
  }
