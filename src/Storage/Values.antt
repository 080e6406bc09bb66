-- ===== src/Storage/Values.antt =====
-- The tree as a map from paths to values, and what a write and a removal do to it.
use vss.Prelude.{
  Bytes, List, [], ◌∷◌, ◌≡◌, refl, sym, ◌∙◌, ◌++◌, Bool, true, false, ◌&&◌, Option, none, some,
  arith, str_eq, eq_of_str_eq, str_eq_refl, str_eq_sym, Bool-cases, inl, inr, if◌then◌else◌, is_nil,
}
use vss.Storage.Tree.{
  RamNode, ram_node, Childs, value, childs, new_node, with_childs, insert, lookup, lookup-insert,
}
use vss.Storage.Scroll.{Edit, read_step, node_at, edit_at, edit_step}
use vss.Storage.Db.{write}

unfoldable pub path_eq : List Bytes → List Bytes → Bool
path_eq [] [] = true
path_eq [] (q ∷ qs) = false
path_eq (p ∷ ps) [] = false
path_eq (p ∷ ps) (q ∷ qs) = str_eq p q && path_eq ps qs

-- The first path is the second one or leads to it.
unfoldable pub is_prefix : List Bytes → List Bytes → Bool
is_prefix [] qs = true
is_prefix (p ∷ ps) [] = false
is_prefix (p ∷ ps) (q ∷ qs) = str_eq p q && is_prefix ps qs

abbrev pub value_of : Option RamNode → Option Bytes
value_of none = none
value_of (some item) = some (value item)

unfoldable pub value_at : List Bytes → RamNode → Option Bytes
value_at p n = value_of (node_at p n)

abbrev pub text_or : Bytes → Option Bytes → Bytes
text_or default none = default
text_or default (some v) = v

-- The value at the end of a path below a node that may not be there.
abbrev pub below : List Bytes → Option RamNode → Option Bytes
below ps none = none
below ps (some item) = value_at ps item

pub value_at-cons :
    (p : Bytes) (ps : List Bytes) (n : RamNode)
    → value_at (p ∷ ps) n ≡ below ps (lookup p (childs n))
unfolding value_at node_at
value_at-cons p ps n = go ps (lookup p (childs n))
  where
    go :
        (ps : List Bytes) (o : Option RamNode)
        → value_of (read_step o (is_nil ps) (node_at ps)) ≡ below ps o
    go ps none = refl
    go [] (some item) = refl
    go (q ∷ qs) (some item) = refl

abbrev pub item_or_new : Option RamNode → RamNode
item_or_new none = new_node
item_or_new (some item) = item

-- The item gets the value; `tag` says whether it is marked as changed.
abbrev pub assign : (RamNode → Bool) → Bytes → Edit
assign tag v name item parent =
    with_childs parent (insert name (ram_node (tag item) v (childs item)) (childs parent))

module _ (tag : RamNode → Bool) where
  -- What stands at the first name of the path after the write.
  abbrev pub written : Bytes → List Bytes → RamNode → RamNode
  written v [] c = ram_node (tag c) v (childs c)
  written v (k ∷ q) c = edit_at (k ∷ q) false (assign tag v) c

  pub edit_at-assign :
      (v k : Bytes) (q : List Bytes) (n : RamNode)
      → edit_at (k ∷ q) false (assign tag v) n
        ≡ with_childs n (insert k (written v q (item_or_new (lookup k (childs n)))) (childs n))
  unfolding edit_at
  edit_at-assign v k q n = go q (lookup k (childs n))
    where
      go :
          (q : List Bytes) (o : Option RamNode)
          → edit_step o false (is_nil q) k (assign tag v) (edit_at q false (assign tag v)) n
            ≡ with_childs n (insert k (written v q (item_or_new o)) (childs n))
      go [] none = refl
      go [] (some c) = refl
      go (j ∷ q) none = refl
      go (j ∷ q) (some c) = refl

pub value_at-with_childs :
    (n : RamNode) (cs : Childs) → value_at [] (with_childs n cs) ≡ value_at [] n
unfolding value_at node_at
value_at-with_childs (ram_node t v _) cs = refl

pub value_at-nil : (n : RamNode) → value_at [] n ≡ some (value n)
unfolding value_at node_at
value_at-nil n = refl

pub childs-with_childs : (n : RamNode) (cs : Childs) → childs (with_childs n cs) ≡ cs
childs-with_childs (ram_node t v _) cs = refl

pub value_at-new : (p : Bytes) (ps : List Bytes) → value_at (p ∷ ps) new_node ≡ none
unfolding value_at node_at lookup
value_at-new p ps = refl

-- A value below an item depends on its childs alone.
value_at-childs :
    (p : Bytes) (ps : List Bytes) (t : Bool) (v : Bytes) (o : Option RamNode)
    → value_at (p ∷ ps) (ram_node t v (childs (item_or_new o))) ≡ below (p ∷ ps) o
value_at-childs p ps t v none = value_at-cons p ps _ ∙ (unfold lookup in refl)
value_at-childs p ps t v (some c) = value_at-cons p ps _ ∙ sym (value_at-cons p ps c)

-- The paths that a write along `q` is about.
abbrev pub after_write : List Bytes → List Bytes → Bytes → Option Bytes → Option Bytes
after_write p q v old =
    if path_eq p q then some v else if is_prefix p q then some (text_or [] old) else old

after_write-new :
    (ps q : List Bytes) (v : Bytes) (o : Option RamNode)
    → after_write ps q v (value_at ps (item_or_new o)) ≡ after_write ps q v (below ps o)
unfolding is_prefix path_eq value_at node_at lookup
after_write-new [] [] v none = refl
after_write-new [] (k ∷ q) v none = refl
after_write-new (p ∷ ps) q v none = refl
after_write-new ps q v (some c) = refl

module _ (tag : RamNode → Bool) where
  written_here :
      (ps : List Bytes) (v : Bytes) (o : Option RamNode)
      → value_at ps (written tag v [] (item_or_new o)) ≡ after_write ps [] v (below ps o)
  unfolding is_prefix path_eq
  written_here [] v o = value_at-nil _
  written_here (p ∷ ps) v o = value_at-childs p ps (tag (item_or_new o)) v o

  -- One step of the law: `w` is what the law says below the first name of the path.
  write_step :
      (k j : Bytes) (q ps : List Bytes) (v : Bytes) (n : RamNode)
      → value_at ps (written tag v q (item_or_new (lookup k (childs n))))
        ≡ after_write ps q v (below ps (lookup k (childs n)))
      → value_at (j ∷ ps) (edit_at (k ∷ q) false (assign tag v) n)
        ≡ after_write (j ∷ ps) (k ∷ q) v (value_at (j ∷ ps) n)
  unfolding path_eq is_prefix
  write_step k j q ps v n w =
      rw
        (edit_at-assign tag, value_at-cons j ps n, value_at-cons, childs-with_childs, lookup-insert)
        (elim (Bool-cases (str_eq k j)) [
          | inl e ↦ rw (e, ← eq_of_str_eq k j e, str_eq_refl k) w
          | inr e ↦ rw (e, str_eq_sym j k, e)
        ])

  -- A write along `q` sets the value there, makes the nodes that lead there, with no value if they
  -- are new, and changes no other value.
  pub value_at-assign :
      (k : Bytes) (q p : List Bytes) (v : Bytes) (n : RamNode)
      → value_at p (edit_at (k ∷ q) false (assign tag v) n) ≡ after_write p (k ∷ q) v (value_at p n)
  unfolding path_eq is_prefix
  value_at-assign k q [] v n = rw (edit_at-assign tag, value_at-with_childs, value_at-nil)
  value_at-assign k [] (j ∷ ps) v n =
      write_step k j [] ps v n (written_here ps v (lookup k (childs n)))
  value_at-assign k (l ∷ q) (j ∷ ps) v n =
      let o = lookup k (childs n) in
      write_step k j (l ∷ q) ps v n
        (value_at-assign l q ps v (item_or_new o) ∙ after_write-new ps (l ∷ q) v o)

-- The write of `Set`, which marks the item.
pub value_at-write :
    (k : Bytes) (q p : List Bytes) (v : Bytes) (n : RamNode)
    → value_at p (edit_at (k ∷ q) false (write v) n) ≡ after_write p (k ∷ q) v (value_at p n)
value_at-write k q p v n = value_at-assign (λ item. true) k q p v n

pub path_eq-append : (xs p q : List Bytes) → path_eq (xs ++ p) (xs ++ q) ≡ path_eq p q
unfolding path_eq
path_eq-append [] p q = refl
path_eq-append (x ∷ xs) p q = rw (str_eq_refl x) (path_eq-append xs p q)

pub is_prefix-append : (xs p q : List Bytes) → is_prefix (xs ++ p) (xs ++ q) ≡ is_prefix p q
unfolding is_prefix
is_prefix-append [] p q = refl
is_prefix-append (x ∷ xs) p q = rw (str_eq_refl x) (is_prefix-append xs p q)

pub path_eq_refl : (p : List Bytes) → path_eq p p ≡ true
unfolding path_eq
path_eq_refl [] = refl
path_eq_refl (x ∷ p) = rw (str_eq_refl x) (path_eq_refl p)

pub path_eq-append_one :
    (p q : List Bytes) (x : Bytes) → path_eq (p ++ x ∷ []) (q ++ x ∷ []) ≡ path_eq p q
unfolding path_eq
path_eq-append_one [] [] x = rw (str_eq_refl x)
path_eq-append_one [] (b ∷ []) x = ground arith
path_eq-append_one [] (b ∷ c ∷ q) x = ground arith
path_eq-append_one (a ∷ []) [] x = ground arith
path_eq-append_one (a ∷ d ∷ p) [] x = ground arith
path_eq-append_one (a ∷ p) (b ∷ q) x = rw (path_eq-append_one p q x)
