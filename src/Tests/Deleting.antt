-- ===== src/Tests/Deleting.antt =====
-- The reading, deleting and locking of several variables in sources/controller/controller.go at
-- concrete inputs.
use vss.Prelude.{Bytes, codes, List, [], ◌∷◌, ◌≡◌, refl, str_eq, true, false, All}
use vss.Text.{cut, split, has_prefix}
use vss.Storage.Tree.{lookup, insert, erase}
use vss.Storage.Scroll.{scroll_tree, scroll_edit, read_step, edit_step}
use vss.Storage.Db.{RamCachedDb, empty_db, get, set, delete_value, write, remove}
use vss.Storage.Keys.{key_path, first_name}
use vss.Storage.Values.{path_eq}
use vss.Storage.Interface.{ram_storage}
use vss.Controller.VarHelper.{set_controlled_var_name}
use vss.Controller.VarFlags
use vss.Controller.VarFlags.{get_value}
use vss.Controller.Reading.{controlled, get_vars, get_var, del_one, del_var, del_vars, delete_each}
use vss.Controller.Reading.Deleting.{get_value-del_vars, get_value-del_vars_ne}

abbrev lights : List Bytes
lights = codes "lamp" ∷ codes "fan" ∷ []

abbrev lit : RamCachedDb
lit = set (codes "vars.lamp") (codes "on") (set (codes "vars.fan") (codes "off") empty_db)

lights_deleted : (del_vars ram_storage false lights lit).ok ≡ true
unfolding del_vars del_one del_var get_vars get_var delete_each get_value set_controlled_var_name
    has_prefix get set delete_value write remove scroll_tree scroll_edit read_step edit_step lookup
    insert first_name cut str_eq VarFlags.delete_value erase
lights_deleted = refl

get_value-del_vars_example :
    All
      (λ n.
        get_value ram_storage
          (controlled ram_storage false n)
          (del_vars ram_storage false lights lit).state
        ≡ [])
      lights
get_value-del_vars_example = get_value-del_vars ram_storage false lights lit lights_deleted

door_is_apart :
    All
      (λ n.
        path_eq (key_path (codes "vars.door")) (key_path (controlled ram_storage false n)) ≡ false)
      lights
unfolding key_path path_eq set_controlled_var_name has_prefix split str_eq
door_is_apart = (refl, (refl, tt))

get_value-del_vars_ne_example :
    get_value ram_storage (codes "vars.door") (del_vars ram_storage false lights lit).state
    ≡ get_value ram_storage (codes "vars.door") lit
get_value-del_vars_ne_example =
    get_value-del_vars_ne ram_storage false lights (codes "vars.door") lit door_is_apart
