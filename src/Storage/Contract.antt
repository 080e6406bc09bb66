-- ===== src/Storage/Contract.antt =====
-- istorage.go: what the operations of `IStorage` promise to one another, in terms of the paths that
-- keys name; the operations of `RamCachedDB` keep these promises.
use vss.Prelude.{
  Bytes, List, [], ◌∷◌, ◌≡◌, refl, sym, ◌∙◌, Bool, true, false, ◌&&◌, ◌||◌, not, Option, none, some,
  arith, if◌then◌else◌, is_nil,
}
use vss.Storage.Tree.{RamNode, ram_node, Childs, no_childs, child, names, is_empty}
use vss.Storage.Keys.{key_path, key_path_step}
use vss.Storage.Scroll.{node_at, scroll_tree-node_at, scroll_edit-edit_at}
use vss.Storage.Db.{
  RamCachedDb, set, get, has_value, get_child_names, delete_value, fuel, value_or, names_of, write,
  remove, is_some,
}
use vss.Storage.Values.{
  value_at, path_eq, is_prefix, value_of, after_write, value_at-write, text_or,
}
use vss.Storage.Removal.{after_remove, is_leaf, value_at-remove, childless}

pub get-value_at :
    (name default : Bytes) (db : RamCachedDb)
    → get name default db ≡ text_or default (value_at (key_path name) db.root)
unfolding get value_at
get-value_at name default db =
    rw (scroll_tree-node_at (fuel name) name db.root (omega arith))
      (go (node_at (key_path name) db.root))
  where
    go : (o : Option RamNode) → value_or default o ≡ text_or default (value_of o)
    go none = refl
    go (some item) = refl

has_value-value_at :
    (name : Bytes) (db : RamCachedDb)
    → has_value name db ≡ is_some (value_at (key_path name) db.root)
unfolding has_value value_at
has_value-value_at name db =
    rw (scroll_tree-node_at (fuel name) name db.root (omega arith))
      (go (node_at (key_path name) db.root))
  where
    go : (o : Option RamNode) → is_some o ≡ is_some (value_of o)
    go none = refl
    go (some item) = refl

-- The value at a path after `Set`.
value_at-set :
    (p : List Bytes) (j v : Bytes) (db : RamCachedDb)
    → value_at p (set j v db).root ≡ after_write p (key_path j) v (value_at p db.root)
unfolding set
value_at-set p j v db =
    rw (scroll_edit-edit_at (fuel j) j false (write v) db.root (omega arith), key_path_step j)
      (value_at-write _ _ p v db.root)

value_at-delete_value :
    (p : List Bytes) (j : Bytes) (cascade : Bool) (db : RamCachedDb)
    → value_at p (delete_value j cascade db).root
      ≡ after_remove p (key_path j) cascade (is_leaf (key_path j) db.root) (value_at p db.root)
unfolding delete_value
value_at-delete_value p j cascade db =
    rw (scroll_edit-edit_at (fuel j) j true (remove cascade) db.root (omega arith), key_path_step j)
      (value_at-remove _ _ p cascade db.root)

-- `Get` after `Set`: the value at the key that was set; at a key that leads to it, what was there, or
-- the empty value (never the caller's default); at any other key, what `Get` gave before.
pub get-set :
    (k j v default : Bytes) (db : RamCachedDb)
    → get k default (set j v db) ≡ (
        if path_eq (key_path k) (key_path j)
        then v
        else if is_prefix (key_path k) (key_path j)
        then get k [] db
        else get k default db)
get-set k j v default db =
    rw (get-value_at, get-value_at, get-value_at, value_at-set) (ground arith)

path_eq-is_prefix : (p q : List Bytes) → path_eq p q ≡ true → is_prefix p q ≡ true
unfolding path_eq is_prefix
path_eq-is_prefix [] q h = refl
path_eq-is_prefix (x ∷ p) [] h = cc
path_eq-is_prefix (x ∷ p) (y ∷ q) h = ground (arith, path_eq-is_prefix p q)

-- `HasValue` after `Set` holds for the key that was set, for every key that leads to it, and for the
-- keys that had it before.
pub has_value-set :
    (k j v : Bytes) (db : RamCachedDb)
    → has_value k (set j v db) ≡ (is_prefix (key_path k) (key_path j) || has_value k db)
has_value-set k j v db =
    rw (has_value-value_at, has_value-value_at, value_at-set)
      (ground (arith, path_eq-is_prefix (key_path k) (key_path j)))

is_nil-names : (cs : Childs) → is_nil (names cs) ≡ is_empty cs
unfolding names
is_nil-names no_childs = refl
is_nil-names (child k n cs) = refl

get_child_names-node_at :
    (parent_name : Bytes) (db : RamCachedDb)
    → is_nil parent_name ≡ false
    → get_child_names parent_name db ≡ names_of (node_at (key_path parent_name) db.root)
unfolding get_child_names
get_child_names-node_at parent_name db h =
    rw (h, scroll_tree-node_at (fuel parent_name) parent_name db.root (omega arith))

-- A node with no child left is one whose child names are none.
is_leaf-get_child_names :
    (j : Bytes) (db : RamCachedDb)
    → is_nil j ≡ false
    → is_leaf (key_path j) db.root ≡ is_nil (get_child_names j db)
unfolding is_leaf
is_leaf-get_child_names j db h =
    rw (get_child_names-node_at j db h) (go (node_at (key_path j) db.root))
  where
    go : (o : Option RamNode) → childless o ≡ is_nil (names_of o)
    go none = refl
    go (some (ram_node t v cs)) = sym (is_nil-names cs)

-- `Get` after `DeleteValue`, for every pair of keys: at the key itself the caller's default if the node
-- went, which it did unless childs stay below it, and the empty value if it stayed; after a cascade,
-- the default at every key below; at any other key, what `Get` gave before.
pub get-delete_value :
    (k j default : Bytes) (cascade : Bool) (db : RamCachedDb)
    → get k default (delete_value j cascade db) ≡ (
        if path_eq (key_path k) (key_path j)
        then (if has_value k db && not (cascade || is_leaf (key_path j) db.root)
            then []
            else default)
        else if cascade && is_prefix (key_path j) (key_path k)
        then default
        else get k default db)
get-delete_value k j default cascade db =
    rw (get-value_at, get-value_at k default db, has_value-value_at, value_at-delete_value)
      (ground arith)

-- The same for a key that is not empty, with the childs that GetChildNames lists.
pub get-delete_value_listed :
    (k j default : Bytes) (cascade : Bool) (db : RamCachedDb)
    → is_nil j ≡ false
    → get k default (delete_value j cascade db) ≡ (
        if path_eq (key_path k) (key_path j)
        then (if has_value k db && not (cascade || is_nil (get_child_names j db))
            then []
            else default)
        else if cascade && is_prefix (key_path j) (key_path k)
        then default
        else get k default db)
get-delete_value_listed k j default cascade db h =
    get-delete_value k j default cascade db ∙ rw (is_leaf-get_child_names j db h) refl

-- `HasValue` after `DeleteValue` fails for the key unless childs stay below it, after a cascade for
-- every key below it too, and is unchanged for any other key.
pub has_value-delete_value :
    (k j : Bytes) (cascade : Bool) (db : RamCachedDb)
    → is_nil j ≡ false
    → has_value k (delete_value j cascade db) ≡ (
        has_value k db
        && not (
            if path_eq (key_path k) (key_path j)
            then cascade || is_nil (get_child_names j db)
            else cascade && is_prefix (key_path j) (key_path k)))
has_value-delete_value k j cascade db h =
    rw
      (
        has_value-value_at,
        has_value-value_at k db,
        value_at-delete_value,
        is_leaf-get_child_names j db h,
      )
      (ground arith)

-- The default is returned exactly where there is no value; it does not change a value that is there.
pub get_default :
    (k default : Bytes) (db : RamCachedDb)
    → get k default db ≡ (if has_value k db then get k [] db else default)
get_default k default db =
    rw (get-value_at k default db, get-value_at k [] db, has_value-value_at) (ground arith)
