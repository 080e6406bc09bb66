-- ===== src/Storage/Db.antt =====
-- ramcacheddb.go, `RamCachedDB`: the operations of `IStorage` on the tree below the root.
-- Each runs under the lock `mu`, so it is one step from a state to the next.
-- A `misc.DynamicVar` holds its value as text; the empty one holds the empty text.
use vss.Prelude.{
  ℕ, suc, Bytes, List, [], Bool, true, false, ◌||◌, Option, none, some, length, if◌then◌else◌,
  is_nil,
}
use vss.Storage.Tree.{
  RamNode, ram_node, Childs, no_childs, value, childs, with_childs, is_empty, insert, erase, names,
}
use vss.Storage.Scroll.{Edit, scroll_tree, scroll_edit}

pub record RamCachedDb : Type 0 where
  pub root : RamNode
  pub pending_changes : Bool

-- `&RamCachedDB{}` with `r.root.childs = make(…)`
abbrev pub empty_db : RamCachedDb
empty_db = record { root = ram_node false [] no_childs; pending_changes = false }

abbrev pub fuel : Bytes → ℕ
fuel name = suc (length name)

-- item.tags["changed"] = true; item.value = v
abbrev pub write : Bytes → Edit
write v name item parent =
    with_childs parent (insert name (ram_node true v (childs item)) (childs parent))

unfoldable pub set : Bytes → Bytes → RamCachedDb → RamCachedDb
set name v db = record {
  root = scroll_edit (fuel name) name false (write v) db.root;
  pending_changes = true;
}

abbrev pub value_or : Bytes → Option RamNode → Bytes
value_or default none = default
value_or default (some item) = value item

abbrev pub is_some {ℓ} : {A : Type ℓ} → Option A → Bool
is_some none = false
is_some (some a) = true

unfoldable pub get : Bytes → Bytes → RamCachedDb → Bytes
get name default db = value_or default (scroll_tree (fuel name) name db.root)

unfoldable pub has_value : Bytes → RamCachedDb → Bool
has_value name db = is_some (scroll_tree (fuel name) name db.root)

abbrev pub names_of : Option RamNode → List Bytes
names_of none = []
names_of (some item) = names (childs item)

unfoldable pub get_child_names : Bytes → RamCachedDb → List Bytes
get_child_names parent_name db =
    if is_nil parent_name
    then names (childs db.root)
    else names_of (scroll_tree (fuel parent_name) parent_name db.root)

abbrev pub childs_left : Bool → RamNode → Childs
childs_left true item = no_childs
childs_left false item = childs item

-- The value is cleared; the node goes, unless childs stay below it.
abbrev pub remove : Bool → Edit
remove cascade name item parent =
    if is_empty (childs_left cascade item)
    then with_childs parent (erase name (childs parent))
    else with_childs parent
        (insert name (ram_node true [] (childs_left cascade item)) (childs parent))

unfoldable pub delete_value : Bytes → Bool → RamCachedDb → RamCachedDb
delete_value name cascade db = record {
  root = scroll_edit (fuel name) name true (remove cascade) db.root;
  pending_changes = has_value name db || db.pending_changes;
}
