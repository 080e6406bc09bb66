-- ===== src/Storage/Pkv.antt =====
-- ramcacheddbpkv.go, `RamCachedDBPkv`: the storage whose dump goes to a prefix tree, which is an
-- argument.
use vss.Prelude.{Bytes, List, [], ◌∷◌, ◌++◌, ◌≡◌, refl, true, false, is_nil, if◌then◌else◌, arith}
use vss.Storage.Tree.{RamNode, ram_node, Childs, no_childs, child, childs, new_node, insert, lookup}
use vss.Storage.Keys.{key_path}
use vss.Storage.Scroll.{edit_at, scroll_edit-edit_at}
use vss.Storage.Values.{edit_at-assign}
use vss.Storage.Db.{RamCachedDb, empty_db, set, write, fuel}
use vss.Storage.Dump.{ReadResult, load, prefix_of}

-- What is called of prefixtree.Pkv; its errors are not looked at.
pub record PrefixTree (K : Type 0) : Type 0 where
  pub put : Bytes → Bytes → K → K
  pub delete : Bytes → K → K
  pub search_childs : Bytes → K → List Bytes
  pub get_or_default : Bytes → Bytes → K → Bytes

module _ {K : Type 0} (tree : PrefixTree K) where
  open tree use {put, delete, search_childs, get_or_default}

  -- What is done for a child that is marked as changed.
  abbrev dump_child : Bytes → Bytes → K → K
  dump_child name v kv = if is_nil v then delete name kv else put name v kv

  -- The loop of dumpNodesPkv.
  unfoldable pub dump_childs_pkv : Bytes → Childs → K → K
  dump_childs_pkv prefix no_childs kv = kv
  dump_childs_pkv prefix (child k (ram_node t v ds) cs) kv =
      dump_childs_pkv prefix cs (if t then dump_child (prefix ++ k) v kv else kv)

  unfoldable pub dump_nodes_pkv : RamNode → Bytes → K → K
  dump_nodes_pkv current current_parent_name kv =
      dump_childs_pkv (prefix_of current_parent_name) (childs current) kv

  -- dumpPkv
  unfoldable pub dump_pkv : RamCachedDb → K → K
  dump_pkv db kv = dump_nodes_pkv db.root [] kv

  -- The loop of loadPkv.
  unfoldable pub load_names : List Bytes → K → RamCachedDb → RamCachedDb
  load_names [] kv db = db
  load_names (name ∷ names) kv db =
      let value = get_or_default name [] kv in
      load_names names kv (if is_nil value then db else set name value db)

  unfoldable pub load_pkv : K → RamCachedDb → RamCachedDb
  load_pkv kv db = load_names (search_childs [] kv) kv db

  -- NewRamCachedDBPkv, once the directory and the prefix tree are there: it loads the prefix tree and
  -- then the text dump.
  unfoldable pub new_ram_cached_db_pkv : ReadResult → K → RamCachedDb
  new_ram_cached_db_pkv file kv = (load file (load_pkv kv empty_db)).1

  -- A tick of backgroundDumper with dumpPkv.
  unfoldable pub dump_pending_pkv : RamCachedDb → K → RamCachedDb × K
  dump_pending_pkv db kv =
      if db.pending_changes
      then (record db { pending_changes = false }, dump_pkv db kv)
      else (db, kv)

  -- A path of two names or more, in an empty tree, marks no child of the root.
  dump_childs-edit_at :
      (k l : Bytes) (q : List Bytes) (v : Bytes) (kv : K)
      → dump_childs_pkv [] (childs (edit_at (k ∷ l ∷ q) false (write v) empty_db.root)) kv ≡ kv
  unfolding dump_childs_pkv lookup insert
  dump_childs-edit_at k l q v kv =
      rw
        (
          edit_at-assign (λ item. true) v k (l ∷ q) empty_db.root,
          edit_at-assign (λ item. true) v l q new_node,
        )
        refl

  -- A variable that is set below another name in an empty storage is not dumped: the prefix tree
  -- stays as it was, although the change is no longer pending.
  pub dump_pending_pkv-set :
      (key v k l : Bytes) (q : List Bytes) (kv : K)
      → key_path key ≡ k ∷ l ∷ q
      → ((dump_pending_pkv (set key v empty_db) kv).1 ≡ kv)
        × ((dump_pending_pkv (set key v empty_db) kv).0.pending_changes ≡ false)
  unfolding dump_pending_pkv dump_pkv dump_nodes_pkv set
  dump_pending_pkv-set key v k l q kv h = (
    rw (scroll_edit-edit_at (fuel key) key false (write v) empty_db.root (omega arith), h)
        (dump_childs-edit_at k l q v kv),
    refl,
  )
