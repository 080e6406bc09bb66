-- ===== src/Tests/Storage.antt =====
-- sources/services/storage and sources/misc/dynamicvar.go at concrete inputs.
use vss.Prelude.{str_eq, Bytes, codes, [], ◌∷◌, ◌≡◌, refl, true, ◌&&◌, ◌||◌, not, if◌then◌else◌}
use vss.Text.{cut}
use vss.Storage.Tree.{lookup, insert, names}
use vss.Storage.Keys.{key_path}
use vss.Storage.Scroll.{scroll_tree, scroll_edit}
use vss.Storage.Db.{RamCachedDb, empty_db, set, get, has_value, get_child_names, delete_value}
use vss.Storage.Values.{path_eq, is_prefix}
use vss.Storage.Removal.{is_leaf}
use vss.Storage.Contract.{get-set, get-delete_value}

abbrev key : Bytes
key = codes "vars.home.lamp"

abbrev lamp_on : RamCachedDb
lamp_on = set key (codes "on") empty_db

get_lamp : get key (codes "off") lamp_on ≡ codes "on"
unfolding get set scroll_tree scroll_edit cut lookup insert str_eq
get_lamp = refl

child_of_vars : get_child_names (codes "vars") lamp_on ≡ codes "home" ∷ []
unfolding get_child_names set scroll_tree scroll_edit cut lookup insert str_eq names
child_of_vars = refl

get-set_example : get (codes "vars.home") (codes "off") (set key (codes "on") empty_db) ≡ (
    if path_eq (key_path (codes "vars.home")) (key_path key)
    then codes "on"
    else if is_prefix (key_path (codes "vars.home")) (key_path key)
    then get (codes "vars.home") [] empty_db
    else get (codes "vars.home") (codes "off") empty_db)
get-set_example = get-set (codes "vars.home") key (codes "on") (codes "off") empty_db

get-delete_value_example : get key (codes "off") (delete_value (codes "vars.home") true lamp_on) ≡ (
    if path_eq (key_path key) (key_path (codes "vars.home"))
    then (if has_value key lamp_on
          && not (true || is_leaf (key_path (codes "vars.home")) lamp_on.root)
        then []
        else codes "off")
    else if true && is_prefix (key_path (codes "vars.home")) (key_path key)
    then codes "off"
    else get key (codes "off") lamp_on)
get-delete_value_example = get-delete_value key (codes "vars.home") (codes "off") true lamp_on
