-- ===== src/Logger/Writers.antt =====
-- writers/console.go, writers/file.go: how a message is written. A file is an argument, with the writing
-- of a text, its size and startCompaction.
pub mod Lines
use vss.Prelude.{
  ℕ, Bytes, codes, List, [], ◌∷◌, ◌++◌, Bool, true, false, Option, none, some, ◌&&◌, ◌||◌, not,
  if◌then◌else◌, length,
}
use vss.Prelude.Int.{ℤ, pos, negsuc, int_eq, le_int}
use vss.Text.{spaces}
use vss.Logger.Common.{Clock, ends_line, ident, generate_line_beginning, level_to_string}
use vss.Logger.Log.{Message}

-- The file behind `fw.file`.
pub record LogFile (R : Type 0) : Type 0 where
  pub write_string : Bytes → R → R
  pub size : R → Option ℤ
  pub start_compaction : R → Option R

-- `FileWriter`
pub record FileWriter (R : Type 0) : Type 0 where
  pub file : Option R
  pub log_level : ℤ
  pub print_milliseconds : Bool
  pub max_file_size : ℤ
  pub last_line_opened : Bool
  pub curr_ident_prefix : Bytes

-- `ConsoleWriter`
pub record ConsoleWriter : Type 0 where
  pub colors : Bool
  pub display_line_pref : Bool
  pub display_date_time : Bool
  pub log_level : ℤ
  pub print_millis : Bool
  pub last_line_opened : Bool
  pub curr_ident_prefix : Bytes

-- What goes to one of the streams of the process.
pub data Printing : Type 0 where
  nothing : Printing
  to_stdout : Bytes → Printing
  to_stderr : Bytes → Printing

-- a < b
abbrev pub less : ℤ → ℤ → Bool
less a b = not (le_int b a)

abbrev escape_code : Bytes → Bytes
escape_code s = 27 ∷ s

abbrev colored : Bytes → Bytes → Bytes
colored color out = escape_code color ++ (out ++ escape_code (codes "[0m"))

-- handle colors
abbrev color_of : ℤ → Bytes → Bytes
color_of level out =
    if int_eq level (pos 30)
    then colored (codes "[0;36m") out
    else if int_eq level (pos 50)
    then colored (codes "[0;33m") out
    else if int_eq level (pos 60)
    then colored (codes "[0;31m") out
    else if int_eq level (pos 70)
    then colored (codes "[1;37;41m") out
    else if int_eq level (pos 20)
    then colored (codes "[0;35m") out
    else if int_eq level (pos 10) || int_eq level (pos 9)
    then colored (codes "[0;90m") out
    else out

module _ {T : Type 0} (clock : Clock T) (now : T) where
  -- The beginning of the line of a message.
  abbrev pub header : Bool → Bool → Message T → Bytes
  header include_date_time include_millis m =
      generate_line_beginning clock now (level_to_string m.level (codes "INFO")) m.name
        include_date_time m.date_time m.timezoneoffset include_millis

  abbrev console_prefix : ConsoleWriter → Message T → Bytes
  console_prefix c m =
      if c.display_line_pref && not c.last_line_opened
      then header c.display_date_time c.print_millis m
      else []

  abbrev console_indent : ConsoleWriter → Message T → Bytes
  console_indent c m =
      if c.display_line_pref && not c.last_line_opened
      then spaces (length (console_prefix c m))
      else c.curr_ident_prefix

  abbrev console_text : ConsoleWriter → Message T → Bytes
  console_text c m =
      let out = ident (console_prefix c m ++ m.msg) (console_indent c m) in
      if c.colors then color_of m.level out else out

  -- ConsoleWriter.Write
  unfoldable pub console_write : Message T → ConsoleWriter → Printing × ConsoleWriter
  console_write m c = if less m.level c.log_level then (nothing, c) else (
    if int_eq m.level (pos 60) || int_eq m.level (pos 70)
        then to_stderr (console_text c m)
        else to_stdout (console_text c m),
    record c { last_line_opened = not (ends_line m.msg); curr_ident_prefix = console_indent c m },
  )

  module _ {R : Type 0} (ops : LogFile R) where
    open ops use {write_string, size, start_compaction}

    abbrev is_above : ℤ → Option ℤ → Bool
    is_above max none = false
    is_above max (some n) = less max n

    abbrev compacted : ℤ → R → Option R
    compacted max r =
        if less (pos 0) max && is_above max (size r) then start_compaction r else some r

    abbrev put : Bytes → ℤ → Option R → Option R
    put out max none = none
    put out max (some r) = compacted max (write_string out r)

    abbrev file_header : FileWriter R → Message T → Bytes
    file_header fw m = if fw.last_line_opened then [] else header true fw.print_milliseconds m

    abbrev file_indent : FileWriter R → Message T → Bytes
    file_indent fw m =
        if fw.last_line_opened then fw.curr_ident_prefix else spaces (length (file_header fw m))

    -- FileWriter.Write
    unfoldable pub file_write : Message T → FileWriter R → FileWriter R
    file_write m fw = if less m.level fw.log_level then fw else record fw {
      file = put (file_header fw m ++ ident m.msg (file_indent fw m)) fw.max_file_size fw.file;
      last_line_opened = not (ends_line m.msg);
      curr_ident_prefix = file_indent fw m;
    }
