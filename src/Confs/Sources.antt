-- ===== src/Confs/Sources.antt =====
-- misc/confs/sources: the command line, the environment and the configuration file as sources of values.
-- The environment and the lines that bufio.Scanner reads of the file are arguments.
use vss.Prelude.{
  ◌-◌, Bytes, codes, List, [], ◌∷◌, ◌++◌, ◌&&◌, ◌||◌, Option, none, some, str_eq, leb, ◌==◌,
  if◌then◌else◌, is_nil,
}
use vss.Prelude.Dict.{find, store}
use vss.Text.{cut, has_prefix, trim_space}
use vss.Confs.{Source}

abbrev pub Table : Type 0
Table = List (Bytes × Bytes)

-- strings.ReplaceAll(n, ".", "_")
unfoldable pub underscored : Bytes → Bytes
underscored [] = []
underscored (c ∷ n) = let rest = underscored n in if c == b'.' then b'_' ∷ rest else c ∷ rest

-- strings.ToUpper of an ASCII text.
unfoldable pub to_upper : Bytes → Bytes
to_upper [] = []
to_upper (c ∷ n) =
    let rest = to_upper n in if leb b'a' c && leb c b'z' then (c - 32) ∷ rest else c ∷ rest

abbrev or_next : Bytes → Option Bytes → Option (Bytes × Bytes) → Option (Bytes × Bytes)
or_next name none next = next
or_next name (some v) next = some (v, name)

-- Find of the command line and of the file: the value, and the name that it stands under.
unfoldable pub find_in : List Bytes → Table → Option (Bytes × Bytes)
find_in [] kv = none
find_in (n ∷ possible_names) kv =
    or_next n (find str_eq n kv)
      (or_next (underscored n) (find str_eq (underscored n) kv) (find_in possible_names kv))

abbrev or_not_empty : Bytes → Bytes → Option (Bytes × Bytes) → Option (Bytes × Bytes)
or_not_empty name v next = if is_nil v then next else some (v, name)

-- Find of the environment.
unfoldable pub find_env : (Bytes → Bytes) → List Bytes → Option (Bytes × Bytes)
find_env getenv [] = none
find_env getenv (n ∷ possible_names) =
    let alt = to_upper (underscored n) in
    or_not_empty n (getenv n) (or_not_empty alt (getenv alt) (find_env getenv possible_names))

abbrev store_trimmed : Option (Bytes × Bytes) → Table → Table
store_trimmed none kv = kv
store_trimmed (some (key, val)) kv = store str_eq (trim_space key) (trim_space val) kv

unfoldable pub read_line : Bytes → Table → Table
read_line text kv =
    let line = trim_space text in
    if is_nil line || has_prefix line (codes "#") then kv else store_trimmed (cut b'=' line) kv

unfoldable pub read_lines : List Bytes → Table → Table
read_lines [] kv = kv
read_lines (text ∷ texts) kv = read_lines texts (read_line text kv)

-- NewFileSource; `none` is a file that cannot be opened.
unfoldable pub new_file_source : Option (List Bytes) → Table
new_file_source none = []
new_file_source (some texts) = read_lines texts []

abbrev store_next : Bytes → List Bytes → Table → Table
store_next key [] kv = kv
store_next key (val ∷ args) kv = store str_eq key val kv

abbrev store_cut :
    Option (Bytes × Bytes) → Option (Bytes × Bytes) → Bytes → List Bytes → Table → Table
store_cut (some (key, val)) colon a args kv = store str_eq key val kv
store_cut none (some (key, val)) a args kv = store str_eq key val kv
store_cut none none a args kv = store_next a args kv

-- NewCommandLineSource: an argument without `=` and `:` takes the next one as its value, which is
-- read as an argument all the same.
unfoldable pub read_args : List Bytes → Table → Table
read_args [] kv = kv
read_args (a ∷ args) kv = read_args args (store_cut (cut b'=' a) (cut b':' a) a args kv)

abbrev text_or_nil : Option Bytes → Bytes
text_or_nil none = []
text_or_nil (some v) = v

-- The three sources, with their GetSourceInfo.
abbrev pub command_line_source : List Bytes → Source
command_line_source args = record {
  find_value = λ possible_names. find_in possible_names (read_args args []);
  source_info = codes "Command Line Arguments";
}

abbrev pub env_source : (Bytes → Bytes) → Source
env_source getenv = record {
  find_value = find_env getenv;
  source_info = codes "Environment Variables";
}

abbrev pub file_source : Option (List Bytes) → Source
file_source texts = record {
  find_value = λ possible_names. find_in possible_names (new_file_source texts);
  source_info =
      codes "Configuration File ("
      ++ (text_or_nil (find str_eq (codes "file") (new_file_source texts)) ++ codes ")");
}
