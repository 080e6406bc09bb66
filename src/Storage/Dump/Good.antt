-- ===== src/Storage/Dump/Good.antt =====
-- The trees that a dump can be loaded from again, and that the operations keep to them.
use vss.Prelude.{
  Bytes, List, [], ◌∷◌, ◌≡◌, refl, Bool, true, false, Option, none, some, All, is_nil, arith,
  str_eq, str_eq_sym, subst, eq_of_str_eq, Bool-cases, inl, inr,
}
use vss.Text.{contains}
use vss.Storage.Scroll.{Edit, place, edit_step, edit_at}
use vss.Storage.Values.{assign}
use vss.Storage.Db.{remove, childs_left}
use vss.Storage.Tree.{
  RamNode, ram_node, new_node, is_empty, Childs, no_childs, child, value, childs, with_childs,
  lookup, insert, erase, lookup-insert, lookup-erase,
}

some_node : {a b : RamNode} → some a ≡ some b → a ≡ b
some_node h = cc

-- A name that stands between the dots of a line of the dump.
abbrev pub IsName : Bytes → Type 0
IsName k =
    (is_nil k ≡ false)
    × (contains k b'.' ≡ false)
    × (contains k b'=' ≡ false)
    × (contains k b'\n' ≡ false)

abbrev pub IsLine : Bytes → Type 0
IsLine v = contains v b'\n' ≡ false

-- Every name and value below fits a line, and no name stands twice at one place.
unfoldable pub IsGood : Childs → Type 0
IsGood no_childs = Unit
IsGood (child k (ram_node t v ds) cs) =
    IsName k × IsLine v × (lookup k cs ≡ none) × IsGood ds × IsGood cs

-- So do the root's childs and its value.
abbrev pub IsGoodNode : RamNode → Type 0
IsGoodNode n = IsLine (value n) × IsGood (childs n)

insert_absent :
    (k j : Bytes) (n : RamNode) (cs : Childs)
    → str_eq j k ≡ false
    → lookup j cs ≡ none
    → lookup j (insert k n cs) ≡ none
insert_absent k j n cs h e = rw (lookup-insert, str_eq_sym k j, h) e

insert-IsGood :
    (k : Bytes) (n : RamNode) (cs : Childs)
    → IsName k
    → IsGoodNode n
    → IsGood cs
    → IsGood (insert k n cs)
unfolding IsGood insert lookup
insert-IsGood k (ram_node t v ds) no_childs n (l, d) g = (n, l, refl, d, tt)
insert-IsGood k (ram_node t v ds) (child j (ram_node u w es) cs) n (l, d) (a, b, c, e, f) =
    elim (Bool-cases (str_eq j k)) [
      | inl q ↦ rw q (n, l, subst (λ i. lookup i cs ≡ none) (eq_of_str_eq j k q) c, d, f)
      | inr q ↦ rw q (
        a,
        b,
        insert_absent k j (ram_node t v ds) cs q c,
        e,
        insert-IsGood k (ram_node t v ds) cs n (l, d) f,
      )
    ]

erase_absent : (k j : Bytes) (cs : Childs) → lookup j cs ≡ none → lookup j (erase k cs) ≡ none
erase_absent k j cs e = rw (lookup-erase, e) (ground arith)

erase-IsGood : (k : Bytes) (cs : Childs) → IsGood cs → IsGood (erase k cs)
unfolding IsGood erase
erase-IsGood k no_childs g = tt
erase-IsGood k (child j (ram_node u w es) cs) (a, b, c, e, f) =
    let rest = erase-IsGood k cs f in
    elim (Bool-cases (str_eq j k)) [
      | inl q ↦ rw q rest
      | inr q ↦ rw q (a, b, erase_absent k j cs c, e, rest)
    ]

-- What is found in a good tree has a good name, and is good.
lookup-IsGood :
    (k : Bytes) (n : RamNode) (cs : Childs)
    → IsGood cs
    → lookup k cs ≡ some n
    → IsName k × IsGoodNode n
unfolding IsGood lookup
lookup-IsGood k n no_childs g h = cc
lookup-IsGood k n (child j (ram_node u w es) cs) (a, b, c, e, f) h =
    elim (Bool-cases (str_eq j k)) [
      | inl q ↦
          let p : ram_node u w es ≡ n = some_node (rw q at h) in
          (subst IsName (eq_of_str_eq j k q) a, subst IsGoodNode p (b, e))
      | inr q ↦ lookup-IsGood k n cs f (rw q at h)
    ]

with_childs-IsGoodNode :
    (n : RamNode) (cs : Childs) → IsGoodNode n → IsGood cs → IsGoodNode (with_childs n cs)
with_childs-IsGoodNode (ram_node t v _) cs (l, _) g = (l, g)

-- An edit that keeps to the good trees where its name and its item are good.
abbrev pub Keeps : Edit → Type 0
Keeps edit =
    (name : Bytes) (item parent : RamNode)
    → IsName name
    → IsGoodNode item
    → IsGoodNode parent
    → IsGoodNode (edit name item parent)

new_node-IsGoodNode : IsGoodNode new_node
unfolding IsGood contains
new_node-IsGoodNode = (refl, tt)

place-IsGoodNode :
    (last : Bool) (name : Bytes) (edit : Edit) (deeper : RamNode → RamNode) (curr item : RamNode)
    → Keeps edit
    → IsName name
    → IsGoodNode curr
    → IsGoodNode item
    → IsGoodNode (deeper item)
    → IsGoodNode (place last name edit deeper curr item)
unfolding place
place-IsGoodNode true name edit deeper curr item keeps n c i d = keeps name item curr n i c
place-IsGoodNode false name edit deeper curr item keeps n c i d =
    with_childs-IsGoodNode curr _ c (insert-IsGood name (deeper item) (childs curr) n d c.1)

-- A walk that makes nodes needs good names; one that only reads finds none but good names.
abbrev pub Named : Bool → List Bytes → Type 0
Named true q = Unit
Named false q = All IsName q

Named-tail :
    (read_only : Bool) (k : Bytes) (q : List Bytes) → Named read_only (k ∷ q) → Named read_only q
Named-tail true k q h = tt
Named-tail false k q (h, hs) = hs

edit_step-IsGoodNode :
    (o : Option RamNode) (read_only last : Bool) (k : Bytes) (q : List Bytes) (edit : Edit)
    (deeper : RamNode → RamNode) (curr : RamNode)
    → Keeps edit
    → Named read_only (k ∷ q)
    → IsGoodNode curr
    → lookup k (childs curr) ≡ o
    → ((item : RamNode) → IsGoodNode item → IsGoodNode (deeper item))
    → IsGoodNode (edit_step o read_only last k edit deeper curr)
unfolding edit_step
edit_step-IsGoodNode none true last k q edit deeper curr keeps n c e d = c
edit_step-IsGoodNode none false last k q edit deeper curr keeps (n, ns) c e d =
    place-IsGoodNode last k edit deeper curr new_node keeps n c new_node-IsGoodNode
      (d new_node new_node-IsGoodNode)
edit_step-IsGoodNode (some item) read_only last k q edit deeper curr keeps n c e d =
    let (name, good) = lookup-IsGood k item (childs curr) c.1 e in
    place-IsGoodNode last k edit deeper curr item keeps name c good (d item good)

pub edit_at-IsGoodNode :
    (q : List Bytes) (read_only : Bool) (edit : Edit) (curr : RamNode)
    → Keeps edit
    → Named read_only q
    → IsGoodNode curr
    → IsGoodNode (edit_at q read_only edit curr)
unfolding edit_at
edit_at-IsGoodNode [] read_only edit curr keeps n c = c
edit_at-IsGoodNode (k ∷ q) read_only edit curr keeps n c =
    edit_step-IsGoodNode (lookup k (childs curr)) read_only (is_nil q) k q edit
      (edit_at q read_only edit) curr keeps n c refl
      (λ item g. edit_at-IsGoodNode q read_only edit item keeps (Named-tail read_only k q n) g)

pub assign-Keeps : (tag : RamNode → Bool) (v : Bytes) → IsLine v → Keeps (assign tag v)
assign-Keeps tag v l name item parent n i c =
    with_childs-IsGoodNode parent _ c (insert-IsGood name _ (childs parent) n (l, i.1) c.1)

childs_left-IsGood :
    (cascade : Bool) (item : RamNode) → IsGoodNode item → IsGood (childs_left cascade item)
childs_left-IsGood true item i = unfold IsGood in tt
childs_left-IsGood false item i = i.1

pub nil-IsLine : IsLine []
unfolding contains
nil-IsLine = refl

pub remove-Keeps : (cascade : Bool) → Keeps (remove cascade)
remove-Keeps cascade name item parent n i c =
    elim (Bool-cases (is_empty (childs_left cascade item))) [
      | inl e ↦ rw e (
          with_childs-IsGoodNode parent (erase name (childs parent)) c
            (erase-IsGood name (childs parent) c.1))
      | inr e ↦ rw e (
          with_childs-IsGoodNode parent _ c (
            insert-IsGood name (ram_node true [] (childs_left cascade item)) (childs parent) n
              (nil-IsLine, childs_left-IsGood cascade item i) c.1))
    ]
