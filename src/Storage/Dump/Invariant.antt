-- ===== src/Storage/Dump/Invariant.antt =====
-- The storage keeps to the trees that a dump can be loaded from again.
use vss.Prelude.{Bytes, List, [], ◌∷◌, Bool, true, false, All, arith}
use vss.Storage.Keys.{key_path}
use vss.Storage.Scroll.{scroll_edit-edit_at}
use vss.Storage.Db.{RamCachedDb, empty_db, set, delete_value, write, remove, fuel}
use vss.Storage.Dump.Good.{
  IsName, IsLine, IsGood, IsGoodNode, edit_at-IsGoodNode, assign-Keeps, remove-Keeps, nil-IsLine,
}

pub data Call : Type 0 where
  sets : Bytes → Bytes → Call
  deletes : Bytes → Bool → Call

unfoldable pub run : List Call → RamCachedDb → RamCachedDb
run [] db = db
run (sets name v ∷ calls) db = run calls (set name v db)
run (deletes name cascade ∷ calls) db = run calls (delete_value name cascade db)

-- The names between the dots of a key that is set are not empty and hold neither `=` nor an end of
-- line, and the value holds no end of line. A deletion may be of any key.
abbrev pub IsDumpable : Call → Type 0
IsDumpable (sets name v) = All IsName (key_path name) × IsLine v
IsDumpable (deletes name cascade) = Unit

abbrev pub IsGoodDb : RamCachedDb → Type 0
IsGoodDb db = IsGoodNode db.root

set-IsGoodDb :
    (name v : Bytes) (db : RamCachedDb)
    → All IsName (key_path name)
    → IsLine v
    → IsGoodDb db
    → IsGoodDb (set name v db)
unfolding set
set-IsGoodDb name v db n l g =
    rw (scroll_edit-edit_at (fuel name) name false (write v) db.root (omega arith)) (
      edit_at-IsGoodNode (key_path name) false (write v) db.root (assign-Keeps (λ item. true) v l) n
        g)

delete_value-IsGoodDb :
    (name : Bytes) (cascade : Bool) (db : RamCachedDb)
    → IsGoodDb db
    → IsGoodDb (delete_value name cascade db)
unfolding delete_value
delete_value-IsGoodDb name cascade db g =
    rw (scroll_edit-edit_at (fuel name) name true (remove cascade) db.root (omega arith))
      (edit_at-IsGoodNode (key_path name) true (remove cascade) db.root (remove-Keeps cascade) tt g)

empty_db-IsGoodDb : IsGoodDb empty_db
unfolding IsGood
empty_db-IsGoodDb = (nil-IsLine, tt)

run_from :
    (calls : List Call) (db : RamCachedDb)
    → All IsDumpable calls
    → IsGoodDb db
    → IsGoodDb (run calls db)
unfolding run
run_from [] db h g = g
run_from (sets name v ∷ calls) db (h, hs) g =
    run_from calls (set name v db) hs (set-IsGoodDb name v db h.0 h.1 g)
run_from (deletes name cascade ∷ calls) db (h, hs) g =
    run_from calls (delete_value name cascade db) hs (delete_value-IsGoodDb name cascade db g)

-- After any calls of Set and DeleteValue on an empty storage every name and value in the tree fits a
-- line of the dump, and no name stands twice at one place; the keys and values that are set fit a
-- line.
pub run-IsGoodDb : (calls : List Call) → All IsDumpable calls → IsGoodDb (run calls empty_db)
run-IsGoodDb calls h = run_from calls empty_db h empty_db-IsGoodDb
