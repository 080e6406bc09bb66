-- ===== src/Storage/Dump.antt =====
-- ramcacheddb.go: the text dump of the tree, its load, and when the background dumper writes it. The
-- file is its text; the file system's answers are arguments.
pub mod Good
pub mod Invariant
pub mod Change
pub mod Restore
pub mod RoundTrip
use vss.Prelude.{
  Bytes, codes, List, [], ◌∷◌, ◌++◌, Bool, true, false, Option, none, some, if◌then◌else◌, is_nil,
}
use vss.Prelude.Int.{ℤ, pos, le_int}
use vss.Text.{cut, split, trim_space}
use vss.Storage.Tree.{RamNode, ram_node, Childs, no_childs, child, changed, value, childs}
use vss.Storage.Scroll.{Edit, scroll_edit}
use vss.Storage.Values.{assign}
use vss.Storage.Db.{RamCachedDb, empty_db, fuel}

abbrev pub prefix_of : Bytes → Bytes
prefix_of [] = []
prefix_of (c ∷ s) = (c ∷ s) ++ b'.' ∷ []

abbrev pub line_of : Bytes → Bytes → Bytes
line_of name v = if is_nil v then [] else name ++ b'=' ∷ (v ++ b'\n' ∷ [])

-- The loop of dumpToStringLocked, below the name that `prefix` ends with a dot.
unfoldable pub dump_childs : Bytes → Childs → Bytes
dump_childs prefix no_childs = []
dump_childs prefix (child k (ram_node t v ds) cs) =
    line_of (prefix ++ k) v ++ (dump_childs (prefix_of (prefix ++ k)) ds ++ dump_childs prefix cs)

unfoldable pub dump_to_string : RamNode → Bytes → Bytes
dump_to_string current current_parent_name =
    dump_childs (prefix_of current_parent_name) (childs current)

-- item.value = misc.NewDynamicVar(val)
abbrev pub fill : Bytes → Edit
fill v = assign changed v

abbrev pub fill_key : Bytes → Bytes → RamNode → RamNode
fill_key key v root = scroll_edit (fuel key) key false (fill v) root

abbrev load_entry : Option (Bytes × Bytes) → RamNode → RamNode
load_entry none root = root
load_entry (some (key, val)) root = fill_key key val root

-- One round of the loop of load.
unfoldable pub load_line : Bytes → RamNode → RamNode
load_line line root = if is_nil (trim_space line) then root else load_entry (cut b'=' line) root

unfoldable pub load_lines : List Bytes → RamNode → RamNode
load_lines [] root = root
load_lines (line ∷ lines) root = load_lines lines (load_line line root)

-- What os.ReadFile says of the dump file.
pub data ReadResult : Type 0 where
  missing read_error : ReadResult
  contents : Bytes → ReadResult

-- load: whether it fails, and the storage.
unfoldable pub load : ReadResult → RamCachedDb → Bool × RamCachedDb
load missing db = (false, db)
load read_error db = (true, db)
load (contents text) db =
    (false, record { root = load_lines (split b'\n' text) db.root; pending_changes = false })

-- NewRamCacheDB loads the file twice.
unfoldable pub new_ram_cache_db : ReadResult → RamCachedDb
new_ram_cache_db file = (load file (load file empty_db).1).1

abbrev pub five_minutes : ℤ
five_minutes = pos 300000

-- The dump interval in milliseconds that NewRamCacheDB uses.
unfoldable pub interval_of : ℤ → ℤ
interval_of dump_interval_ms =
    if le_int dump_interval_ms (pos 0) then five_minutes else dump_interval_ms

-- dump: the file afterwards; `written` says whether the directory and the file could be written.
unfoldable pub dump : Bool → RamCachedDb → ReadResult → ReadResult
dump written db file = if written then contents (dump_to_string db.root []) else file

-- A tick of backgroundDumper, and what it does when the storage is closed.
unfoldable pub dump_pending : Bool → RamCachedDb → ReadResult → RamCachedDb × ReadResult
dump_pending written db file =
    if db.pending_changes
    then (record db { pending_changes = false }, dump written db file)
    else (db, file)
