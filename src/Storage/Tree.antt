-- ===== src/Storage/Tree.antt =====
-- ramcacheddb.go, `ramNode`. A node of the tree is the value that its place holds: `parent` and
-- `imediateName` are the node and the name under which it is found, which never change while it is
-- in the tree. Of `tags` the code reads and writes "changed" alone.
-- A Go map has no order: `Childs` lists the entries in the order in which a `range` meets them.
use vss.Prelude.{
  Bytes, List, [], ◌∷◌, ◌≡◌, refl, Bool, true, false, Option, none, some, arith, str_eq, str_eq_iff,
  if◌then◌else◌,
}

mutual
  pub data RamNode : Type 0 where
    ram_node : Bool → Bytes → Childs → RamNode

  pub data Childs : Type 0 where
    no_childs : Childs
    child : Bytes → RamNode → Childs → Childs

abbrev pub changed : RamNode → Bool
changed (ram_node t v cs) = t

abbrev pub value : RamNode → Bytes
value (ram_node t v cs) = v

abbrev pub childs : RamNode → Childs
childs (ram_node t v cs) = cs

abbrev pub with_childs : RamNode → Childs → RamNode
with_childs (ram_node t v _) cs = ram_node t v cs

-- `&ramNode{value: misc.NewEmptyDynamicVar(), …}`
abbrev pub new_node : RamNode
new_node = ram_node false [] no_childs

abbrev pub is_empty : Childs → Bool
is_empty no_childs = true
is_empty (child _ _ _) = false

-- curr.childs[name]
unfoldable pub lookup : Bytes → Childs → Option RamNode
lookup k no_childs = none
lookup k (child j n cs) = if str_eq j k then some n else lookup k cs

-- curr.childs[name] = n
unfoldable pub insert : Bytes → RamNode → Childs → Childs
insert k n no_childs = child k n no_childs
insert k n (child j m cs) = if str_eq j k then child k n cs else child j m (insert k n cs)

-- delete(curr.childs, name)
unfoldable pub erase : Bytes → Childs → Childs
erase k no_childs = no_childs
erase k (child j m cs) = let rest = erase k cs in if str_eq j k then rest else child j m rest

-- for k := range curr.childs
unfoldable pub names : Childs → List Bytes
names no_childs = []
names (child j m cs) = j ∷ names cs

pub lookup-insert :
    (k j : Bytes) (n : RamNode) (cs : Childs)
    → lookup j (insert k n cs) ≡ (if str_eq k j then some n else lookup j cs)
unfolding lookup insert
lookup-insert k j n no_childs = refl
lookup-insert k j n (child i m cs) =
    ground (arith, str_eq_iff k j, str_eq_iff i k, str_eq_iff i j, lookup-insert k j n cs)

pub lookup-erase :
    (k j : Bytes) (cs : Childs) → lookup j (erase k cs) ≡ (if str_eq k j then none else lookup j cs)
unfolding lookup erase
lookup-erase k j no_childs = ground arith
lookup-erase k j (child i m cs) =
    ground (arith, str_eq_iff k j, str_eq_iff i k, str_eq_iff i j, lookup-erase k j cs)

pub is_empty-insert : (k : Bytes) (n : RamNode) (cs : Childs) → is_empty (insert k n cs) ≡ false
unfolding insert
is_empty-insert k n no_childs = refl
is_empty-insert k n (child i m cs) = ground arith
