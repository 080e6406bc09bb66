-- ===== src/Storage/Removal.antt =====
-- What a removal does to the values of the tree.
use vss.Prelude.{
  Bytes, List, [], ◌∷◌, ◌≡◌, refl, sym, Bool, true, false, ◌&&◌, ◌||◌, Option, none, some, arith,
  str_eq, eq_of_str_eq, str_eq_refl, str_eq_sym, Bool-cases, inl, inr, if◌then◌else◌, is_nil,
}
use vss.Storage.Tree.{
  RamNode, ram_node, no_childs, child, childs, is_empty, lookup, lookup-insert, lookup-erase,
}
use vss.Storage.Scroll.{edit_at, edit_step, node_at, read_step}
use vss.Storage.Db.{remove, childs_left}
use vss.Storage.Values.{
  value_at, below, path_eq, is_prefix, value_at-cons, value_at-with_childs, childs-with_childs,
}

-- No node stands below the one at the end of the path.
abbrev pub childless : Option RamNode → Bool
childless none = true
childless (some item) = is_empty (childs item)

unfoldable pub is_leaf : List Bytes → RamNode → Bool
is_leaf q n = childless (node_at q n)

-- A node that goes has no value; one that stays has the empty value.
abbrev pub cleared : Bool → Option Bytes → Option Bytes
cleared true old = none
cleared false none = none
cleared false (some v) = some []

abbrev pub after_remove : List Bytes → List Bytes → Bool → Bool → Option Bytes → Option Bytes
after_remove p q cascade leaf old =
    if path_eq p q
    then cleared (cascade || leaf) old
    else if cascade && is_prefix q p
    then none
    else old

-- What stands at the first name of the path after the removal.
abbrev left_at : Bool → List Bytes → Option RamNode → Option RamNode
left_at cascade q none = none
left_at cascade [] (some item) =
    if is_empty (childs_left cascade item)
    then none
    else some (ram_node true [] (childs_left cascade item))
left_at cascade (k ∷ q) (some item) = some (edit_at (k ∷ q) true (remove cascade) item)

value_at-remove_nil :
    (k : Bytes) (q : List Bytes) (cascade : Bool) (n : RamNode)
    → value_at [] (edit_at (k ∷ q) true (remove cascade) n) ≡ value_at [] n
unfolding edit_at
value_at-remove_nil k q cascade n = go q (lookup k (childs n))
  where
    go :
        (q : List Bytes) (o : Option RamNode)
        → value_at []
            (edit_step o true (is_nil q) k (remove cascade) (edit_at q true (remove cascade)) n)
          ≡ value_at [] n
    go q none = refl
    go [] (some item) = elim (Bool-cases (is_empty (childs_left cascade item))) [
      | inl e ↦ rw (e, value_at-with_childs)
      | inr e ↦ rw (e, value_at-with_childs)
    ]
    go (l ∷ q) (some item) = value_at-with_childs n _

lookup-remove :
    (k : Bytes) (q : List Bytes) (cascade : Bool) (n : RamNode) (j : Bytes)
    → lookup j (childs (edit_at (k ∷ q) true (remove cascade) n))
      ≡ (if str_eq k j then left_at cascade q (lookup k (childs n)) else lookup j (childs n))
unfolding edit_at
lookup-remove k q cascade n j = go q (lookup k (childs n)) refl
  where
    go :
        (q : List Bytes) (o : Option RamNode)
        → lookup k (childs n) ≡ o
        → lookup j (
            childs
              (edit_step o true (is_nil q) k (remove cascade) (edit_at q true (remove cascade)) n))
          ≡ (if str_eq k j then left_at cascade q o else lookup j (childs n))
    go q none h = elim (Bool-cases (str_eq k j)) [
      | inl e ↦ rw (e, ← eq_of_str_eq k j e, h)
      | inr e ↦ rw e
    ]
    go [] (some item) h = elim (Bool-cases (is_empty (childs_left cascade item))) [
      | inl e ↦ rw (e, childs-with_childs, lookup-erase)
      | inr e ↦ rw (e, childs-with_childs, lookup-insert)
    ]
    go (l ∷ q) (some item) h = rw (childs-with_childs, lookup-insert)

after_remove-none :
    (p q : List Bytes) (cascade leaf : Bool) → after_remove p q cascade leaf none ≡ none
after_remove-none p q true leaf = ground arith
after_remove-none p q false true = ground arith
after_remove-none p q false false = ground arith

left_here :
    (ps : List Bytes) (cascade : Bool) (o : Option RamNode)
    → below ps (left_at cascade [] o) ≡ after_remove ps [] cascade (childless o) (below ps o)
unfolding path_eq is_prefix value_at node_at read_step lookup
left_here ps cascade none = sym (after_remove-none ps [] cascade true)
left_here [] true (some (ram_node t v cs)) = refl
left_here [] false (some (ram_node t v no_childs)) = refl
left_here [] false (some (ram_node t v (child a b cs))) = refl
left_here (p ∷ ps) true (some (ram_node t v cs)) = refl
left_here (p ∷ ps) false (some (ram_node t v no_childs)) = refl
left_here (p ∷ ps) false (some (ram_node t v (child a b cs))) = refl

-- One step of the law: `w` is what the law says below the first name of the path.
remove_step :
    (k j : Bytes) (q ps : List Bytes) (cascade leaf : Bool) (n : RamNode)
    → below ps (left_at cascade q (lookup k (childs n)))
      ≡ after_remove ps q cascade leaf (below ps (lookup k (childs n)))
    → value_at (j ∷ ps) (edit_at (k ∷ q) true (remove cascade) n)
      ≡ after_remove (j ∷ ps) (k ∷ q) cascade leaf (value_at (j ∷ ps) n)
unfolding path_eq is_prefix
remove_step k j q ps cascade leaf n w =
    rw (value_at-cons j ps n, value_at-cons, lookup-remove)
      (elim (Bool-cases (str_eq k j)) [
        | inl e ↦ rw (e, ← eq_of_str_eq k j e, str_eq_refl k) w
        | inr e ↦ rw (e, str_eq_sym j k, e) (keeps cascade)
      ])
  where
    keeps :
        (c : Bool)
        → below ps (lookup j (childs n))
          ≡ (if c && false then none else below ps (lookup j (childs n)))
    keeps true = refl
    keeps false = refl

abbrev leaf_below : List Bytes → Option RamNode → Bool
leaf_below q none = true
leaf_below q (some item) = is_leaf q item

is_leaf-one : (k : Bytes) (n : RamNode) → is_leaf (k ∷ []) n ≡ childless (lookup k (childs n))
unfolding is_leaf node_at
is_leaf-one k n = go (lookup k (childs n))
  where
    go : (o : Option RamNode) → childless (read_step o true (node_at [])) ≡ childless o
    go none = refl
    go (some item) = refl

is_leaf-cons :
    (k l : Bytes) (q : List Bytes) (n : RamNode)
    → is_leaf (k ∷ l ∷ q) n ≡ leaf_below (l ∷ q) (lookup k (childs n))
unfolding is_leaf node_at
is_leaf-cons k l q n = go (lookup k (childs n))
  where
    go :
        (o : Option RamNode)
        → childless (read_step o false (node_at (l ∷ q))) ≡ leaf_below (l ∷ q) o
    go none = refl
    go (some item) = refl

left_below :
    (l : Bytes) (q ps : List Bytes) (cascade : Bool) (o : Option RamNode)
    → ((item : RamNode)
        → value_at ps (edit_at (l ∷ q) true (remove cascade) item)
          ≡ after_remove ps (l ∷ q) cascade (is_leaf (l ∷ q) item) (value_at ps item))
    → below ps (left_at cascade (l ∷ q) o)
      ≡ after_remove ps (l ∷ q) cascade (leaf_below (l ∷ q) o) (below ps o)
left_below l q ps cascade none ih = sym (after_remove-none ps (l ∷ q) cascade true)
left_below l q ps cascade (some item) ih = ih item

-- A removal along `q` clears the value there. Its node goes if no node is left below it, as after a
-- cascade, which takes all that is below. No other value changes.
pub value_at-remove :
    (k : Bytes) (q p : List Bytes) (cascade : Bool) (n : RamNode)
    → value_at p (edit_at (k ∷ q) true (remove cascade) n)
      ≡ after_remove p (k ∷ q) cascade (is_leaf (k ∷ q) n) (value_at p n)
unfolding path_eq is_prefix
value_at-remove k q [] true n = value_at-remove_nil k q true n
value_at-remove k q [] false n = value_at-remove_nil k q false n
value_at-remove k [] (j ∷ ps) cascade n =
    rw is_leaf-one (remove_step k j [] ps cascade _ n (left_here ps cascade (lookup k (childs n))))
value_at-remove k (l ∷ q) (j ∷ ps) cascade n = rw is_leaf-cons (
    remove_step k j (l ∷ q) ps cascade _ n
      (left_below l q ps cascade (lookup k (childs n)) (value_at-remove l q ps cascade)))
