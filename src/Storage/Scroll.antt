-- ===== src/Storage/Scroll.antt =====
-- ramcacheddb.go, `scrollTree`: the walk from a node to the place that a key names.
-- Each round consumes a name and its dot; one more round than the key has bytes is enough fuel.
use vss.Prelude.{
  ℕ, zero, suc, ◌<◌, Bytes, List, [], ◌∷◌, ◌≡◌, ◌≢◌, refl, Bool, true, false, Option, none, some,
  arith, length, if◌then◌else◌, is_nil,
}
use vss.Storage.Tree.{RamNode, childs, with_childs, new_node, lookup, insert}
use vss.Storage.Keys.{first_name, key_path, key_path_step, length-first_name}

-- What a caller does with the item it was given: the name, the item and the item's parent, to the
-- parent afterwards.
abbrev pub Edit : Type 0
Edit = Bytes → RamNode → RamNode → RamNode

-- One round of a read: nil, the item itself if its name is the last one, or a deeper walk.
unfoldable pub read_step : Option RamNode → Bool → (RamNode → Option RamNode) → Option RamNode
read_step none last deeper = none
read_step (some item) true deeper = some item
read_step (some item) false deeper = deeper item

-- scrollTree(name, curr, true); `none` is the nil that it returns.
unfoldable pub scroll_tree : ℕ → Bytes → RamNode → Option RamNode
unfolding read_step first_name
scroll_tree zero name curr = none
scroll_tree (suc fuel) name curr =
    let (curr_name, remaining_name) = first_name name in
    read_step (lookup curr_name (childs curr)) (is_nil remaining_name)
      (scroll_tree fuel remaining_name)

-- The item is handed to the caller, or the walk goes on below it.
unfoldable pub place : Bool → Bytes → Edit → (RamNode → RamNode) → RamNode → RamNode → RamNode
place true name edit deeper curr item = edit name item curr
place false name edit deeper curr item = with_childs curr (insert name (deeper item) (childs curr))

-- Where the name has no node, a read-only walk gives nil and the caller returns; the other walk
-- makes the node first.
unfoldable pub edit_step :
    Option RamNode → Bool → Bool → Bytes → Edit → (RamNode → RamNode) → RamNode → RamNode
unfolding place
edit_step none true last name edit deeper curr = curr
edit_step none false last name edit deeper curr = place last name edit deeper curr new_node
edit_step (some item) read_only last name edit deeper curr = place last name edit deeper curr item

-- scrollTree(name, curr, readOnly), and then what the caller does through the pointer that it gets.
unfoldable pub scroll_edit : ℕ → Bytes → Bool → Edit → RamNode → RamNode
unfolding edit_step first_name
scroll_edit zero name read_only edit curr = curr
scroll_edit (suc fuel) name read_only edit curr =
    let (curr_name, remaining_name) = first_name name in
    edit_step (lookup curr_name (childs curr)) read_only (is_nil remaining_name) curr_name edit
      (scroll_edit fuel remaining_name read_only edit) curr

-- The same walks along a path.
unfoldable pub node_at : List Bytes → RamNode → Option RamNode
unfolding read_step
node_at [] curr = some curr
node_at (p ∷ ps) curr = read_step (lookup p (childs curr)) (is_nil ps) (node_at ps)

unfoldable pub edit_at : List Bytes → Bool → Edit → RamNode → RamNode
unfolding edit_step
edit_at [] read_only edit curr = curr
edit_at (p ∷ ps) read_only edit curr =
    edit_step (lookup p (childs curr)) read_only (is_nil ps) p edit (edit_at ps read_only edit) curr

read_step_cong :
    (o : Option RamNode) (last : Bool) (f g : RamNode → Option RamNode)
    → ((item : RamNode) → last ≡ false → f item ≡ g item)
    → read_step o last f ≡ read_step o last g
unfolding read_step
read_step_cong none last f g h = refl
read_step_cong (some item) true f g h = refl
read_step_cong (some item) false f g h = h item refl

place_cong :
    (last : Bool) (name : Bytes) (edit : Edit) (f g : RamNode → RamNode) (curr item : RamNode)
    → (last ≡ false → f item ≡ g item)
    → place last name edit f curr item ≡ place last name edit g curr item
unfolding place
place_cong true name edit f g curr item h = refl
place_cong false name edit f g curr item h = rw (h refl)

edit_step_cong :
    (o : Option RamNode) (read_only last : Bool) (name : Bytes) (edit : Edit)
    (f g : RamNode → RamNode) (curr : RamNode)
    → ((item : RamNode) → last ≡ false → f item ≡ g item)
    → edit_step o read_only last name edit f curr ≡ edit_step o read_only last name edit g curr
unfolding edit_step
edit_step_cong none true last name edit f g curr h = refl
edit_step_cong none false last name edit f g curr h =
    place_cong last name edit f g curr new_node (h new_node)
edit_step_cong (some item) read_only last name edit f g curr h =
    place_cong last name edit f g curr item (h item)

is_nil-false : (s : Bytes) → is_nil s ≡ false → s ≢ []
is_nil-false [] h = cc
is_nil-false (c ∷ s) h = λ e. cc

is_nil-key_path : (name : Bytes) → is_nil (key_path name) ≡ false
is_nil-key_path name = rw key_path_step

-- The fuel left is enough for what remains.
remaining_fuel :
    {fuel : ℕ} (name : Bytes)
    → length name < suc fuel
    → is_nil (first_name name).1 ≡ false
    → length (first_name name).1 < fuel
remaining_fuel name h e = omega (arith, length-first_name name (is_nil-false _ e))

is_nil_rest : (b : Bool) (name : Bytes) → is_nil (if b then [] else key_path name) ≡ b
is_nil_rest true name = refl
is_nil_rest false name = is_nil-key_path name

-- With more fuel than the key has bytes, a read ends where the key's path leads.
pub scroll_tree-node_at :
    (fuel : ℕ) (name : Bytes) (curr : RamNode)
    → length name < fuel
    → scroll_tree fuel name curr ≡ node_at (key_path name) curr
unfolding scroll_tree node_at
scroll_tree-node_at zero name curr h = absurd (omega arith)
scroll_tree-node_at (suc fuel) name curr h =
    rw (key_path_step, is_nil_rest)
      (read_step_cong (lookup (first_name name).0 (childs curr)) (is_nil (first_name name).1)
        (scroll_tree fuel (first_name name).1)
        (node_at (if is_nil (first_name name).1 then [] else key_path (first_name name).1))
        λ item d. rw d (scroll_tree-node_at fuel _ item (remaining_fuel name h d)))

-- And so does a walk that makes the nodes on its way.
pub scroll_edit-edit_at :
    (fuel : ℕ) (name : Bytes) (read_only : Bool) (edit : Edit) (curr : RamNode)
    → length name < fuel
    → scroll_edit fuel name read_only edit curr ≡ edit_at (key_path name) read_only edit curr
unfolding scroll_edit edit_at
scroll_edit-edit_at zero name read_only edit curr h = absurd (omega arith)
scroll_edit-edit_at (suc fuel) name read_only edit curr h =
    rw (key_path_step, is_nil_rest)
      (edit_step_cong _ read_only _ _ edit _ _ curr
        λ item d. rw d (scroll_edit-edit_at fuel _ read_only edit item (remaining_fuel name h d)))
