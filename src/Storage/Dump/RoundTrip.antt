-- ===== src/Storage/Dump/RoundTrip.antt =====
-- A storage that is dumped and loaded again reads as it did.
use vss.Prelude.{Bytes, List, [], ◌∷◌, append-nil, ◌≡◌, refl, sym, ap, ◌∙◌, true, false, All}
use vss.Text.{split, contains, split_lacking, trim_space, trim_left, trim_right}
use vss.Storage.Tree.{RamNode, childs}
use vss.Storage.Keys.{key_path, key_path_step}
use vss.Storage.Values.{value_at-new}
use vss.Storage.Db.{RamCachedDb, empty_db, get}
use vss.Storage.Contract.{get-value_at}
use vss.Storage.Dump.{
  dump_to_string, dump, ReadResult, load, load_line, load_lines, new_ram_cache_db, dump_childs,
}
use vss.Storage.Dump.Good.{IsGood}
use vss.Storage.Dump.Invariant.{Call, run, IsDumpable, IsGoodDb, run-IsGoodDb}
use vss.Storage.Dump.Change.{text_at, restored_root, change, or_old}
use vss.Storage.Dump.Restore.{IsPrefixOf, restore, load_lines-dump_childs, text_at-restore}

no_prefix : IsPrefixOf [] []
no_prefix = record {
  no_equals = unfold contains in refl;
  no_end = unfold contains in refl;
  parts = λ s h. split_lacking b'.' s h;
}

load_lines_end : (m : RamNode) → load_lines (split b'\n' []) m ≡ m
unfolding load_lines load_line split trim_space trim_left trim_right
load_lines_end m = refl

load_lines-dump :
    (n m : RamNode)
    → IsGood (childs n)
    → load_lines (split b'\n' (dump_to_string n [])) m ≡ restore [] (childs n) m
unfolding dump_to_string
load_lines-dump n m g =
    ap (λ s. load_lines (split b'\n' s) m) (sym (append-nil (dump_childs [] (childs n))))
    ∙ load_lines-dump_childs [] [] (childs n) [] m no_prefix g
    ∙ load_lines_end (restore [] (childs n) m)

text_at-load_lines :
    (k : Bytes) (q : List Bytes) (n m : RamNode)
    → IsGood (childs n)
    → text_at (k ∷ q) (load_lines (split b'\n' (dump_to_string n [])) m)
      ≡ or_old (text_at (k ∷ q) n) (text_at (k ∷ q) m)
text_at-load_lines k q n m g =
    ap (text_at (k ∷ q)) (load_lines-dump n m g)
    ∙ text_at-restore [] [] (childs n) (k ∷ q) m no_prefix g
    ∙ (unfold change in restored_root k q n _)

get-text_at : (key : Bytes) (db : RamCachedDb) → get key [] db ≡ text_at (key_path key) db.root
unfolding text_at
get-text_at key db = get-value_at key [] db

twice : (t old : Bytes) → or_old t (or_old t []) ≡ t
twice [] old = refl
twice (c ∷ t) old = refl

text_at-empty : (k : Bytes) (q : List Bytes) → text_at (k ∷ q) empty_db.root ≡ []
unfolding text_at
text_at-empty k q = rw (value_at-new k q)

text_at-new_ram_cache_db :
    (k : Bytes) (q : List Bytes) (db : RamCachedDb) (file : ReadResult)
    → IsGoodDb db
    → text_at (k ∷ q) (new_ram_cache_db (dump true db file)).root ≡ text_at (k ∷ q) db.root
unfolding new_ram_cache_db load dump
text_at-new_ram_cache_db k q db file g =
    rw (text_at-load_lines k q db.root _ g.1, text_at-load_lines k q db.root _ g.1, text_at-empty)
      (twice (text_at (k ∷ q) db.root) [])

-- The storage that NewRamCacheDB makes from the file that dump wrote gives at every key, read as
-- GetValue does with the empty default, what the storage that was dumped gives, whatever calls of Set
-- and DeleteValue made that, and has no change to dump. In the calls of Set the names between the
-- key's dots are not empty and hold no `=` and no end of line, and the value holds no end of line.
pub get-new_ram_cache_db :
    (calls : List Call) (key : Bytes) (file : ReadResult)
    → All IsDumpable calls
    → (get key [] (new_ram_cache_db (dump true (run calls empty_db) file))
        ≡ get key [] (run calls empty_db))
      × ((new_ram_cache_db (dump true (run calls empty_db) file)).pending_changes ≡ false)
get-new_ram_cache_db calls key file h =
    let db = run calls empty_db in
    (
      rw (get-text_at, get-text_at, key_path_step key)
          (text_at-new_ram_cache_db _ _ db file (run-IsGoodDb calls h)),
      unfold new_ram_cache_db load dump in refl,
    )
