-- ===== src/Tests/Variables.antt =====
-- sources/controller/controller_varhelper.go at concrete inputs.
use vss.Prelude.{Bytes, codes, List, [], ◌∷◌, ◌≡◌, refl}
use vss.Prelude.Int.{pos}
use vss.Text.{cut}
use vss.DynamicVar.{itoa, get_int64, format}
use vss.Storage.Tree.{lookup}
use vss.Storage.Scroll.{scroll_tree}
use vss.Storage.Db.{RamCachedDb, empty_db, get}
use vss.Storage.Interface.{ram_storage}
use vss.Controller.VarHelper.{list_count, register_observation, internal_remove_observing}
use vss.Controller.VarHelper.Listing.{erase_first}
use vss.Controller.VarHelper.Observers.{observers}
use vss.Controller.VarHelper.Removal.{observers-internal_remove_observing}
use vss.Controller.VarFlags.{unlock}

abbrev lamp : Bytes
lamp = codes "vars.lamp"

abbrev watched : RamCachedDb
watched = (register_observation ram_storage lamp (codes "7-moose") (codes "m1") empty_db).1

no_observer : list_count ram_storage lamp empty_db ≡ pos 0
unfolding list_count get scroll_tree cut lookup itoa format get_int64
no_observer = refl

observers-internal_remove_observing_example :
    observers ram_storage lamp
      (internal_remove_observing ram_storage lamp (codes "7-moose") (codes "m1") watched)
    ≡ erase_first
        (record { client_id = codes "7-moose"; metadata = codes "m1" })
        (observers ram_storage lamp watched)
observers-internal_remove_observing_example =
    observers-internal_remove_observing ram_storage lamp (codes "7-moose") (codes "m1") watched

abbrev others_unlock : List (RamCachedDb → RamCachedDb)
others_unlock = unlock ram_storage lamp ∷ []
