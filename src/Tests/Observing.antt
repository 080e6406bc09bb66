-- ===== src/Tests/Observing.antt =====
-- The notifications of sources/controller/controller.go at concrete inputs.
use vss.Prelude.{codes, ◌≡◌, ◌∷◌, map, refl, true, false, arith}
use vss.Prelude.Int.{pos}
use vss.Text.{split}
use vss.DynamicVar.{get_int64, itoa, format}
use vss.Storage.Tree.{lookup}
use vss.Storage.Scroll.{scroll_tree}
use vss.Storage.Db.{empty_db, get, has_value}
use vss.Storage.Interface.{ram_storage}
use vss.Controller.VarHelper.{set_controlled_var_name, list_count, is_client_observing}
use vss.Controller.VarHelper.Observers.{observers}
use vss.Controller.ClientHelper.{Api}
use vss.Controller.Observing.{parents, observe_var, stop_observing_var}
use vss.Controller.Observing.RoundTrip.{observers-stop_observing_var}
use vss.Controller.Observing.Parents.{prefixes, split-parents}

split-parents_example :
    map (split b'.') (parents (codes "house.room.lamp"))
    ≡ prefixes (split b'.' (codes "house.room.lamp"))
split-parents_example = split-parents (codes "house.room.lamp")

-- A client that is always there.
abbrev there : Api
there = record { api_id = codes "vstp"; check_alive = λ id. true; notify_client = λ id told. true }

lamp_not_observed :
    is_client_observing ram_storage
      (set_controlled_var_name false (codes "lamp"))
      (codes "7-moose")
      (codes "m1")
      empty_db
    ≡ false
unfolding is_client_observing has_value scroll_tree lookup
lamp_not_observed = refl

lamp_without_observers :
    list_count ram_storage (set_controlled_var_name false (codes "lamp")) empty_db ≡ pos 0
unfolding list_count get_int64 get scroll_tree lookup itoa format
lamp_without_observers = refl

observers-stop_observing_var_example :
    (let key = set_controlled_var_name false (codes "lamp") in
      let observed =
        observe_var ram_storage false
          (pos 60)
          (codes "lamp")
          (codes "7-moose")
          (codes "m1")
          there
          (pos 5)
          empty_db in
      (observers ram_storage key observed
        ≡ record { client_id = codes "7-moose"; metadata = codes "m1" }
          ∷ observers ram_storage key empty_db)
      × (observers ram_storage key (
            stop_observing_var ram_storage false
              (pos 60)
              (codes "lamp")
              (codes "7-moose")
              (codes "m1")
              there
              (pos 5)
              observed)
          ≡ observers ram_storage key empty_db))
observers-stop_observing_var_example =
    observers-stop_observing_var ram_storage (pos 60) (codes "7-moose") (codes "m1") there (pos 5)
      (codes "lamp") 0 empty_db lamp_not_observed (λ told. refl) lamp_without_observers
      (omega arith)
