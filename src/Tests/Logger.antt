-- ===== src/Tests/Logger.antt =====
-- The logger at concrete inputs.
use vss.Prelude.{
  ◌<◌, Bytes, codes, List, [], ◌∷◌, ◌++◌, ◌≡◌, refl, true, false, some, arith, length,
}
use vss.Prelude.Int.{pos, int_limit, le_int}
use vss.Text.{contains, split}
use vss.Logger.Common.{Clock, ident}
use vss.Logger.Common.Lines.{indented, split-ident}
use vss.Logger.Log.{Logger}
use vss.Logger.Writers.{LogFile, FileWriter}
use vss.Logger.Writers.Lines.{
  Call, IsTextFile, IsAtLine, Holds, log_all, write_all, messages, entries, write_all-log_all,
}
use vss.Logger.Command.{CommandEntry, file_of}
use vss.Logger.Command.RoundTrip.{read_lines, read_lines-file_of}

abbrev two_spaces_prefix : Bytes
two_spaces_prefix = codes "  "

prefix-lacks : contains two_spaces_prefix 10 ≡ false
unfolding contains
prefix-lacks = refl

split-ident_example :
    split 10 (ident (codes "a\nb\n") two_spaces_prefix)
    ≡ indented two_spaces_prefix (split 10 (codes "a\nb\n"))
split-ident_example = split-ident (codes "a\nb\n") two_spaces_prefix prefix-lacks

-- A message with a quote, a backslash and a line break.
abbrev two_entries : List CommandEntry
two_entries =
    record {
      header = codes "[INFO] ";
      entry_text = codes "say \"a\\b\"\n";
      name = codes "db";
      level = pos 40;
    }
    ∷ record { header = codes "[ERROR] "; entry_text = codes "down"; name = []; level = pos 60 }
    ∷ []

forty_is_int : 40 < int_limit
forty_is_int = omega arith

sixty_is_int : 60 < int_limit
sixty_is_int = omega arith

read_lines-file_of_example :
    read_lines (length two_entries) (file_of two_entries ++ codes "rest")
    ≡ some (two_entries, codes "rest")
read_lines-file_of_example =
    read_lines-file_of two_entries (codes "rest") (forty_is_int, (sixty_is_int, tt))

-- A clock whose times are their texts, at Greenwich.
abbrev text_clock : Clock Bytes
text_clock = record {
  is_zero = λ t. false;
  zone = λ t. pos 0;
  add_seconds = λ seconds t. t;
  format_time = λ millis t. t;
}

abbrev quiet_logger : Logger Bytes
quiet_logger = record {
  use_custom_timezone = false;
  custom_time_zone_offset_seconds = pos 0;
  buffer = [];
  keep_next_line_opened = false;
}

-- A file that is its text.
abbrev text_file : LogFile Bytes
text_file = record {
  write_string = λ s r. r ++ s;
  size = λ r. some (pos (length r));
  start_compaction = λ r. some [];
}

text_file-IsTextFile : IsTextFile text_file (λ r. r)
text_file-IsTextFile = record { text-write = λ s r. refl }

abbrev info_writer : FileWriter Bytes
info_writer = record {
  file = some (codes "old\n");
  log_level = pos 40;
  print_milliseconds = true;
  max_file_size = pos 0;
  last_line_opened = false;
  curr_ident_prefix = [];
}

info_writer-IsAtLine :
    IsAtLine text_clock (λ (s : Bytes). s) text_file (codes "now") info_writer (codes "old\n")
unfolding le_int
info_writer-IsAtLine = record { writes = refl; closed_line = refl; unbounded = refl }

-- One call below the level of the writer and one at it.
abbrev two_calls : List (Call Bytes Bytes)
two_calls =
    record { now = codes "one"; level = pos 20; name = []; msgs = codes "hidden" ∷ [] }
    ∷ record {
      now = codes "two";
      level = pos 40;
      name = codes "db";
      msgs = codes "a" ∷ codes "b\nc" ∷ [];
    }
    ∷ []

write_all-log_all_example :
    Holds text_clock
      (λ (s : Bytes). s)
      text_file
      (codes "now")
      (λ r. r)
      text_file-IsTextFile
      (write_all text_clock
        (λ (s : Bytes). s)
        text_file
        (codes "now")
        (log_all text_clock (λ s. s) two_calls quiet_logger).buffer
        info_writer)
      (codes "old\n"
        ++ entries text_clock
            (λ (s : Bytes). s)
            text_file
            (codes "now")
            info_writer
            (messages text_clock (λ s. s) quiet_logger two_calls))
write_all-log_all_example =
    write_all-log_all text_clock (λ (s : Bytes). s) text_file (codes "now") (λ r. r)
      text_file-IsTextFile two_calls quiet_logger info_writer (codes "old\n") refl refl
      info_writer-IsAtLine
