-- ===== src/Tests/Clients.antt =====
-- sources/controller/controller_clienthelper.go and the setting of variables in
-- sources/controller/controller.go at concrete inputs.
use vss.Prelude.{◌↔◌, Bytes, codes, List, [], ◌∷◌, ◌≡◌, ◌⊎◌, refl, false, str_eq, none, All}
use vss.Prelude.Int.{pos, le_int}
use vss.Text.{cut, split, contains, has_prefix}
use vss.DynamicVar.{itoa, format, get_int64}
use vss.Storage.Tree.{lookup, insert}
use vss.Storage.Scroll.{scroll_tree, scroll_edit, read_step, edit_step}
use vss.Storage.Db.{RamCachedDb, empty_db, get, set, write}
use vss.Storage.Keys.{key_path, first_name}
use vss.Storage.Values.{path_eq}
use vss.Storage.Interface.{ram_storage}
use vss.Controller.VarHelper.{set_controlled_var_name}
use vss.Controller.VarFlags.{is_locked, flag_name, get_value, set_value, get_flag}
use vss.Controller.ClientHelper.{
  get_observing_vars_count, register_new_observation, unregister_observation,
}
use vss.Controller.ClientHelper.Listing.{erase_text}
use vss.Controller.ClientHelper.Vars.{observed, vars_name}
use vss.Controller.ClientHelper.Unregister.{observed-unregister_observation}
use vss.Controller.SetVar.{
  Conf, check_var, controlled, get_only, set_var, set_vars, contains_underscore_dot, any_longer,
}
use vss.Controller.SetVar.Exact.{IsRefused, IsWritten, IsAllowed, set_var-iff-IsAllowed}
use vss.Controller.SetVar.Outcomes.{
  filtered, HasNoStar, written_name, get_value-set_vars, get_value-set_vars_ne,
}

abbrev moose : Bytes
moose = codes "7-moose"

abbrev following : RamCachedDb
following = register_new_observation ram_storage moose (codes "lamp") (pos 7) empty_db

nothing_observed : get_observing_vars_count ram_storage moose empty_db ≡ pos 0
unfolding get_observing_vars_count get scroll_tree cut lookup itoa format get_int64
nothing_observed = refl

observed-unregister_observation_example :
    observed ram_storage moose
      (unregister_observation ram_storage moose (codes "lamp") (pos 9) following)
    ≡ erase_text (vars_name (codes "lamp")) (observed ram_storage moose following)
observed-unregister_observation_example =
    observed-unregister_observation ram_storage moose (codes "lamp") (pos 9) following

abbrev conf : Conf
conf = record {
  max_time_waiting_client_second = pos 43200;
  max_key_length = pos 64;
  max_key_word_length = pos 8;
  max_value_size = pos 16;
  allow_raw_db_access = false;
}

set_var-iff-IsAllowed_example :
    (((set_var ram_storage conf (codes "room.lamp") (codes "on") empty_db).error ≡ none) ↔ (
      IsAllowed conf (filtered (codes "room.lamp")) (codes "on")
      × (is_locked ram_storage (controlled ram_storage conf (filtered (codes "room.lamp"))) empty_db
          ≡ false)))
    × (IsRefused empty_db (set_var ram_storage conf (codes "room.lamp") (codes "on") empty_db)
        ⊎ IsWritten ram_storage conf
            (filtered (codes "room.lamp"))
            (codes "on")
            empty_db
            (set_var ram_storage conf (codes "room.lamp") (codes "on") empty_db))
set_var-iff-IsAllowed_example =
    set_var-iff-IsAllowed ram_storage conf (codes "room.lamp") (codes "on") empty_db refl

abbrev two_names : List Bytes
two_names = codes "room.lamp" ∷ codes "room.fan" ∷ []

both_plain : All (HasNoStar ram_storage conf) two_names
unfolding get_only contains set_controlled_var_name has_prefix
both_plain = (refl, (refl, tt))

both_set : (set_vars ram_storage conf two_names (codes "on") empty_db).error ≡ none
unfolding set_vars set_var check_var split contains_underscore_dot le_int any_longer get_only
    contains is_locked get_flag set_value get set write scroll_edit edit_step lookup insert
    scroll_tree read_step cut first_name flag_name str_eq set_controlled_var_name has_prefix
both_set = refl

get_value-set_vars_example :
    All
      (λ n.
        get_value ram_storage
          (written_name ram_storage conf n)
          (set_vars ram_storage conf two_names (codes "on") empty_db).state
        ≡ codes "on")
      two_names
get_value-set_vars_example =
    get_value-set_vars ram_storage conf two_names (codes "on") empty_db both_plain both_set

door_apart :
    All
      (λ n.
        path_eq (key_path (codes "vars.door")) (key_path (written_name ram_storage conf n)) ≡ false)
      two_names
unfolding key_path path_eq get_only contains set_controlled_var_name has_prefix split str_eq
door_apart = (refl, (refl, tt))

get_value-set_vars_ne_example :
    get_value ram_storage
      (codes "vars.door")
      (set_vars ram_storage conf two_names (codes "on") empty_db).state
    ≡ get_value ram_storage (codes "vars.door") empty_db
get_value-set_vars_ne_example =
    get_value-set_vars_ne ram_storage conf two_names (codes "vars.door") (codes "on") empty_db
      door_apart
