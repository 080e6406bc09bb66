-- ===== src/Logger/Command.antt =====
-- writers/commandcall.go, `CommandCallWriter`: the entries that wait, and the file that the command gets.
pub mod RoundTrip
use vss.Prelude.{
  ℕ, Bytes, codes, List, [], ◌∷◌, ◌++◌, Bool, true, Option, none, some, if◌then◌else◌,
}
use vss.Prelude.Int.{ℤ}
use vss.DynamicVar.{itoa}
use vss.Logger.Common.{Clock, generate_line_beginning, level_to_string, escape_string}
use vss.Logger.Log.{Message}

-- `commandEntry`
pub record CommandEntry : Type 0 where
  pub header : Bytes
  pub entry_text : Bytes
  pub name : Bytes
  pub level : ℤ

module _ {T : Type 0} (clock : Clock T) (now : T) where
  abbrev entry_of : Message T → CommandEntry
  entry_of m = record {
    header =
        generate_line_beginning clock now (level_to_string m.level (codes "INFO")) m.name true
          m.date_time m.timezoneoffset true;
    entry_text = m.msg;
    name = m.name;
    level = m.level;
  }

  -- CommandCallWriter.Write, on the cache.
  unfoldable pub command_write : Message T → List CommandEntry → List CommandEntry
  command_write m cache = cache ++ entry_of m ∷ []

-- One line: "\"%s\",\"%s\",\"%s\",%d\n".
unfoldable pub line_of : CommandEntry → Bytes
line_of e =
    34 ∷ escape_string e.header
    ++ (codes "\",\""
        ++ (escape_string e.entry_text
            ++ (codes "\",\""
                ++ (escape_string e.name ++ (codes "\"," ++ (itoa e.level ++ codes "\n"))))))

unfoldable pub file_of : List CommandEntry → Bytes
file_of [] = []
file_of (e ∷ es) = line_of e ++ file_of es

-- One round of `loop`: the text of the file that the command is called with, none where there is no call,
-- and the cache. `created` is whether os.CreateTemp gives a file.
unfoldable pub command_round : Bool → List CommandEntry → Option Bytes × List CommandEntry
command_round created [] = (none, [])
command_round created (e ∷ es) = (if created then some (file_of (e ∷ es)) else none, [])
