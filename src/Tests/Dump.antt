-- ===== src/Tests/Dump.antt =====
-- The dumps of sources/services/storage/ramcacheddb.go and ramcacheddbpkv.go at concrete inputs.
use vss.Prelude.{
  Bytes, codes, List, [], ◌∷◌, ◌++◌, ◌≡◌, refl, str_eq, true, false, Option, none, some, All,
}
use vss.Prelude.Dict.{find, store, discard}
use vss.Text.{cut, split, contains}
use vss.Storage.Tree.{lookup, insert}
use vss.Storage.Scroll.{scroll_edit, edit_step}
use vss.Storage.Keys.{key_path, first_name}
use vss.Storage.Db.{empty_db, get, set, write}
use vss.Storage.Dump.{missing, dump, dump_to_string, dump_childs, new_ram_cache_db}
use vss.Storage.Dump.Invariant.{Call, sets, deletes, run, IsDumpable}
use vss.Storage.Dump.RoundTrip.{get-new_ram_cache_db}
use vss.Storage.Pkv.{PrefixTree, dump_pending_pkv, dump_pending_pkv-set}

abbrev some_calls : List Call
some_calls =
    sets (codes "vars.room.lamp") (codes "on")
    ∷ sets (codes "vars.fan") (codes "off")
    ∷ deletes (codes "vars.fan") false
    ∷ []

calls_fit : All IsDumpable some_calls
unfolding key_path split contains
calls_fit = (
  (((refl, refl, refl, refl), ((refl, refl, refl, refl), ((refl, refl, refl, refl), tt))), refl),
  ((((refl, refl, refl, refl), ((refl, refl, refl, refl), tt)), refl), (tt, tt)),
)

get-new_ram_cache_db_example :
    (get
        (codes "vars.room.lamp")
        []
        (new_ram_cache_db (dump true (run some_calls empty_db) missing))
      ≡ get (codes "vars.room.lamp") [] (run some_calls empty_db))
    × ((new_ram_cache_db (dump true (run some_calls empty_db) missing)).pending_changes ≡ false)
get-new_ram_cache_db_example =
    get-new_ram_cache_db some_calls (codes "vars.room.lamp") missing calls_fit

dump_runs :
    dump_to_string (set (codes "vars.lamp") (codes "on") empty_db).root []
    ≡ codes "vars.lamp=on" ++ b'\n' ∷ []
unfolding dump_to_string dump_childs set write scroll_edit edit_step lookup insert first_name split
    cut
dump_runs = refl

-- A prefix tree as a list of its entries.
abbrev value_or : Bytes → Option Bytes → Bytes
value_or default none = default
value_or default (some v) = v

abbrev keys_of : List (Bytes × Bytes) → List Bytes
keys_of [] = []
keys_of ((k, v) ∷ m) = k ∷ keys_of m

abbrev entry_tree : PrefixTree (List (Bytes × Bytes))
entry_tree = record {
  put = λ k v m. store str_eq k v m;
  delete = λ k m. discard str_eq k m;
  search_childs = λ k m. keys_of m;
  get_or_default = λ k default m. value_or default (find str_eq k m);
}

lamp_path : key_path (codes "vars.lamp") ≡ codes "vars" ∷ codes "lamp" ∷ []
unfolding key_path split
lamp_path = refl

dump_pending_pkv-set_example :
    ((dump_pending_pkv entry_tree (set (codes "vars.lamp") (codes "on") empty_db) []).1 ≡ [])
    × ((dump_pending_pkv entry_tree
          (set (codes "vars.lamp") (codes "on") empty_db)
          []).0.pending_changes
        ≡ false)
dump_pending_pkv-set_example =
    dump_pending_pkv-set entry_tree (codes "vars.lamp") (codes "on") (codes "vars") (codes "lamp")
      [] [] lamp_path
