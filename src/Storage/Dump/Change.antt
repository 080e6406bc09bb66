-- ===== src/Storage/Dump/Change.antt =====
-- What loading the lines of a part of the tree does to the text at each path.
use vss.Prelude.{
  Bytes, List, [], ◌∷◌, ◌++◌, ◌≡◌, refl, Bool, false, Option, none, some, is_nil, if◌then◌else◌,
  arith, str_eq, str_eq_refl, str_eq_sym, eq_of_str_eq, Bool-cases, inl, inr,
}
use vss.Storage.Tree.{RamNode, ram_node, Childs, no_childs, child, value, childs, lookup}
use vss.Storage.Values.{value_at, text_or, path_eq, below, value_at-cons, value_at-nil}

-- The text that Get reads at a path.
unfoldable pub text_at : List Bytes → RamNode → Bytes
text_at p n = text_or [] (value_at p n)

abbrev text_below : List Bytes → Option RamNode → Bytes
text_below p none = []
text_below p (some n) = text_at p n

pub text_at-cons :
    (k : Bytes) (p : List Bytes) (n : RamNode)
    → text_at (k ∷ p) n ≡ text_below p (lookup k (childs n))
unfolding text_at
text_at-cons k p n = rw (value_at-cons k p n) (go (lookup k (childs n)))
  where
    go : (o : Option RamNode) → text_or [] (below p o) ≡ text_below p o
    go none = refl
    go (some c) = refl

text_at-nil : (n : RamNode) → text_at [] n ≡ value n
unfolding text_at
text_at-nil n = rw (value_at-nil n)

-- A text that is dumped replaces the old one; an empty text is not dumped.
abbrev pub or_old : Bytes → Bytes → Bytes
or_old t old = if is_nil t then old else t

-- The text at a path below a node, after its childs are loaded.
unfoldable pub restored : Childs → List Bytes → Bytes → Bytes
restored cs [] old = old
restored cs (k ∷ q) old = or_old (text_at (k ∷ q) (ram_node false [] cs)) old

-- The text at any path, after the childs below `pre` are loaded.
unfoldable pub change : List Bytes → Childs → List Bytes → Bytes → Bytes
change [] cs q old = restored cs q old
change (x ∷ pre) cs [] old = old
change (x ∷ pre) cs (y ∷ q) old =
    let deeper = change pre cs q old in if str_eq x y then deeper else old

-- The text at any path, after a line for the path is loaded, if there is one.
abbrev pub own_text : List Bytes → Bytes → List Bytes → Bytes → Bytes
own_text path v q old = if is_nil v then old else if path_eq q path then v else old

own_text-nil : (x v : Bytes) (path : List Bytes) (old : Bytes) → own_text (x ∷ path) v [] old ≡ old
unfolding path_eq
own_text-nil x v path old = ground arith

own_text-cons :
    (x y v : Bytes) (path q : List Bytes) (old : Bytes)
    → own_text (x ∷ path) v (y ∷ q) old ≡ (if str_eq x y then own_text path v q old else old)
unfolding path_eq
own_text-cons x y v path q old = rw (str_eq_sym y x) (ground arith)

lookup_child :
    (j k : Bytes) (n : RamNode) (cs : Childs)
    → lookup j (child k n cs) ≡ (if str_eq k j then some n else lookup j cs)
unfolding lookup
lookup_child j k n cs = refl

text_at_child :
    (k j : Bytes) (n : RamNode) (cs : Childs) (q : List Bytes)
    → text_at (j ∷ q) (ram_node false [] (child k n cs))
      ≡ (if str_eq k j then text_at q n else text_at (j ∷ q) (ram_node false [] cs))
text_at_child k j n cs q =
    rw (text_at-cons, text_at-cons, lookup_child j k n cs)
      (elim (Bool-cases (str_eq k j)) [ inl e ↦ rw e | inr e ↦ rw e ])

-- The first child of the list, at the place where it stands.
restored_first :
    (k : Bytes) (t : Bool) (v : Bytes) (ds cs : Childs) (q : List Bytes) (old : Bytes)
    → restored ds q (own_text [] v q old) ≡ restored (child k (ram_node t v ds) cs) (k ∷ q) old
unfolding restored
restored_first k t v ds cs [] old =
    rw (text_at_child k k (ram_node t v ds) cs [], str_eq_refl k, text_at-nil)
      (unfold path_eq in refl)
restored_first k t v ds cs (r ∷ q) old =
    rw
      (
        text_at_child k k (ram_node t v ds) cs (r ∷ q),
        str_eq_refl k,
        text_at-cons r q (ram_node t v ds),
        text_at-cons r q (ram_node false [] ds),
      )
      (unfold path_eq in ground arith)

-- The other childs leave that place alone.
restored_absent :
    (k : Bytes) (cs : Childs) (q : List Bytes) (old : Bytes)
    → lookup k cs ≡ none
    → restored cs (k ∷ q) old ≡ old
unfolding restored
restored_absent k cs q old h = rw (text_at-cons, h)

restored_other :
    (k j : Bytes) (n : RamNode) (cs : Childs) (q : List Bytes) (old : Bytes)
    → str_eq k j ≡ false
    → restored (child k n cs) (j ∷ q) old ≡ restored cs (j ∷ q) old
unfolding restored
restored_other k j n cs q old h = rw (text_at_child k j n cs q, h)

-- The line of a child, its own childs and the childs behind it, loaded one after the other.
pub change_child :
    (pre : List Bytes) (k : Bytes) (t : Bool) (v : Bytes) (ds cs : Childs) (q : List Bytes)
    (old : Bytes)
    → lookup k cs ≡ none
    → change pre cs q (change (pre ++ k ∷ []) ds q (own_text (pre ++ k ∷ []) v q old))
      ≡ change pre (child k (ram_node t v ds) cs) q old
unfolding change
change_child [] k t v ds cs [] old h = rw (own_text-nil k v [] old) (unfold restored in refl)
change_child [] k t v ds cs (j ∷ q) old h =
    rw (own_text-cons k j v [] q old) (elim (Bool-cases (str_eq k j)) [
      | inl e ↦
          rw (e, ← eq_of_str_eq k j e, restored_absent k cs q _ h)
            (restored_first k t v ds cs q old)
      | inr e ↦ rw (e, restored_other k j (ram_node t v ds) cs q old e)
    ])
change_child (x ∷ pre) k t v ds cs [] old h = own_text-nil x v (pre ++ k ∷ []) old
change_child (x ∷ pre) k t v ds cs (y ∷ q) old h =
    rw (own_text-cons x y v (pre ++ k ∷ []) q old) (elim (Bool-cases (str_eq x y)) [
      | inl e ↦ rw e (change_child pre k t v ds cs q old h)
      | inr e ↦ rw e
    ])

pub change_none : (pre q : List Bytes) (old : Bytes) → change pre no_childs q old ≡ old
unfolding change
change_none [] [] old = unfold restored in refl
change_none [] (k ∷ q) old = restored_absent k no_childs q old (unfold lookup in refl)
change_none (x ∷ pre) [] old = refl
change_none (x ∷ pre) (y ∷ q) old = elim (Bool-cases (str_eq x y)) [
  | inl e ↦ rw e (change_none pre q old)
  | inr e ↦ rw e
]

-- With the root's own value and mark left aside, the text at a path is that of the root's childs.
pub restored_root :
    (k : Bytes) (q : List Bytes) (n : RamNode) (old : Bytes)
    → restored (childs n) (k ∷ q) old ≡ or_old (text_at (k ∷ q) n) old
unfolding restored
restored_root k q n old = rw (text_at-cons, text_at-cons) refl
