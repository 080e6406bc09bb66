-- ===== src/Tests/Across.antt =====
-- The two APIs over one controller, at concrete requests.
use vss.Prelude.{ℕ, codes, List, [], ◌∷◌, ◌≡◌, refl, true, false}
use vss.Storage.Db.{RamCachedDb}
use vss.Controller.ClientHelper.{Api}
use vss.Http.Nested.{Fields, no_fields, field, text, object}
use vss.Http.Handlers.{set_json}
use vss.Http.Handlers.Leaves.{ended, name_of, leaves, set_leaves, set_json-set_leaves}
use vss.Server.{Texts}
use vss.Tests.Http.{plain_go}
use vss.Tests.Server.{keeper}

abbrev plain_texts : Texts
plain_texts = record { resolve_error = λ s. s; delete_error = λ s. s; lock_error = λ s. s }

abbrev no_api : Api
no_api = record {
  api_id = codes "vstp";
  check_alive = λ id. false;
  notify_client = λ id changes. true;
}

abbrev alone : ℕ → List (RamCachedDb → RamCachedDb)
alone timeout = []

-- An object in an object.
abbrev one_room : Fields
one_room =
    field (codes "hall") (object (field (codes "lamp") (text (codes "on")) no_fields))
      (field (codes "door") (text (codes "shut")) no_fields)

set_json-set_leaves_example :
    ended (set_json plain_go keeper (name_of (codes "house" ∷ [])) one_room [])
    ≡ set_leaves plain_go keeper (leaves (codes "house" ∷ []) one_room) []
set_json-set_leaves_example = set_json-set_leaves plain_go keeper one_room (codes "house" ∷ []) []

house_leaves : leaves [] one_room ≡ (
    (codes "hall" ∷ codes "lamp" ∷ [], text (codes "on"))
    ∷ (codes "door" ∷ [], text (codes "shut"))
    ∷ [])
unfolding leaves
house_leaves = refl

lamp_of_hall : name_of (codes "hall" ∷ codes "lamp" ∷ []) ≡ codes "hall.lamp"
lamp_of_hall = refl
