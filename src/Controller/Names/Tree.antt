-- ===== src/Controller/Names/Tree.antt =====
-- How far below a name the storage has others: the bounds that resolveWildCards recurses within.
use vss.Prelude.{
  codes, ℕ, suc, ◌+◌, ◌≤◌, ◌<◌, Bytes, List, [], ◌∷◌, ◌≡◌, refl, Bool, true, false, Option, none,
  some, arith, All, inl, inr, Bool-cases, str_eq, sym, subst, length, is_nil, ◌&&◌, not, ◌==◌,
}
use vss.Text.{has_prefix, contains, count}
use vss.Storage.Tree.{RamNode, ram_node, Childs, no_childs, child, childs, lookup, names}
use vss.Storage.Keys.{key_path, length-key_path}
use vss.Storage.Scroll.{read_step, node_at, scroll_tree-node_at}
use vss.Storage.Db.{RamCachedDb, get_child_names, names_of, fuel}
use vss.Storage.Interface.{ram_storage}
use vss.Controller.VarFlags
use vss.Controller.VarFlags.{shown_childs}
use vss.Controller.VarHelper.{set_controlled_var_name}
use vss.Controller.Names.{childs_of}

-- How many nodes there are below a node.
unfoldable pub size : Childs → ℕ
size no_childs = 0
size (child k (ram_node t v ds) cs) = suc (size ds + size cs)

-- No name below a node holds a wildcard.
abbrev pub IsPlain : Bytes → Type 0
IsPlain k = contains k b'*' ≡ false

unfoldable pub ArePlain : Childs → Type 0
ArePlain no_childs = Unit
ArePlain (child k (ram_node t v ds) cs) = IsPlain k × ArePlain ds × ArePlain cs

lookup-size :
    (k : Bytes) (n : RamNode) (cs : Childs)
    → lookup k cs ≡ some n
    → (size (childs n) < size cs) × (ArePlain cs → ArePlain (childs n))
unfolding lookup size ArePlain
lookup-size k n no_childs h = cc
lookup-size k n (child j (ram_node t v ds) cs) h = elim (Bool-cases (str_eq j k)) [
  | inl e ↦ found n (rw e at h)
  | inr e ↦ let (s, p) = lookup-size k n cs (rw e at h) in (omega arith, λ (a, b, c). p c)
]
  where
    found :
        (n : RamNode)
        → ◌≡◌ {A = Option RamNode} (some (ram_node t v ds)) (some n)
        → (size (childs n) < suc (size ds + size cs))
          × (IsPlain j × ArePlain ds × ArePlain cs → ArePlain (childs n))
    found (ram_node u w es) e =
        let q : ds ≡ es = cc in (rw (sym q) (omega arith), λ (a, b, c). subst ArePlain q b)

some_node : {a b : RamNode} → some a ≡ some b → a ≡ b
some_node h = cc

read_step-some :
    (o : Option RamNode) (ps : List Bytes) (item : RamNode)
    → read_step o (is_nil ps) (node_at ps) ≡ some item
    → (n : RamNode) × (o ≡ some n) × (node_at ps n ≡ some item)
unfolding read_step node_at
read_step-some none ps item h = cc
read_step-some (some n) [] item h = (n, refl, h)
read_step-some (some n) (p ∷ ps) item h = (n, refl, h)

-- A node lies as deep as its path is long, so there are fewer nodes below it.
pub node_at-size :
    (ps : List Bytes) (curr item : RamNode)
    → node_at ps curr ≡ some item
    → (length ps + size (childs item) ≤ size (childs curr))
      × (ArePlain (childs curr) → ArePlain (childs item))
unfolding node_at
node_at-size [] curr item h =
    let e : curr ≡ item = some_node h in
    (rw e (omega arith), λ p. subst (λ n. ArePlain (childs n)) e p)
node_at-size (p ∷ ps) curr item h =
    let (n, e, k) = read_step-some (lookup p (childs curr)) ps item h in
    let (small, plain) = lookup-size p n (childs curr) e in
    let (short, plain_below) = node_at-size ps n item k in (omega arith, λ q. plain_below (plain q))

names-IsPlain : (cs : Childs) → ArePlain cs → All IsPlain (names cs)
unfolding ArePlain names
names-IsPlain no_childs p = tt
names-IsPlain (child k (ram_node t v ds) cs) (a, b, c) = (a, names-IsPlain cs c)

names_small : (cs : Childs) → size cs ≡ 0 → names cs ≡ []
unfolding names size
names_small no_childs h = refl
names_small (child k (ram_node t v ds) cs) h = absurd (omega arith)

-- A name that GetChildNames returns is not empty, and holds no wildcard if none in the storage does.
abbrev pub IsShown : Bytes → Type 0
IsShown ch = (is_nil ch ≡ false) × IsPlain ch

shown_childs-IsShown :
    (raw : Bool) (chs : List Bytes) → All IsPlain chs → All IsShown (shown_childs raw chs)
unfolding shown_childs
shown_childs-IsShown raw [] h = tt
shown_childs-IsShown raw ([] ∷ rest) (_, hs) = shown_childs-IsShown raw rest hs
shown_childs-IsShown raw ((c ∷ ch) ∷ rest) (h, hs) =
    let later = shown_childs-IsShown raw rest hs in
    elim (Bool-cases (not raw && c == b'_')) [
      | inl e ↦ rw e later
      | inr e ↦ rw e ((refl, h), later)
    ]

-- No name has more dots than there are nodes, unless it has no child; and its childs are plain.
get_child_names-size :
    (name : Bytes) (db : RamCachedDb)
    → (size (childs db.root) ≤ count b'.' name → get_child_names name db ≡ [])
      × (ArePlain (childs db.root) → All IsPlain (get_child_names name db))
unfolding get_child_names count
get_child_names-size [] db =
    (λ h. names_small (childs db.root) (omega arith), names-IsPlain (childs db.root))
get_child_names-size (c ∷ name) db =
    rw (scroll_tree-node_at (fuel (c ∷ name)) (c ∷ name) db.root (omega arith))
      (go (node_at (key_path (c ∷ name)) db.root) refl)
  where
    go :
        (o : Option RamNode)
        → node_at (key_path (c ∷ name)) db.root ≡ o
        → (size (childs db.root) ≤ count b'.' (c ∷ name) → names_of o ≡ [])
          × (ArePlain (childs db.root) → All IsPlain (names_of o))
    go none e = (λ h. refl, λ p. tt)
    go (some item) e =
        let (short, plain) = node_at-size (key_path (c ∷ name)) db.root item e in
        (
          λ h. names_small (childs item) (omega (arith, length-key_path (c ∷ name))),
          λ p. names-IsPlain (childs item) (plain p),
        )

count-set_controlled_var_name :
    (raw : Bool) (name : Bytes) → count b'.' name ≤ count b'.' (set_controlled_var_name raw name)
unfolding set_controlled_var_name
count-set_controlled_var_name true name = omega arith
count-set_controlled_var_name false name = elim (Bool-cases (has_prefix name (codes "vars."))) [
  | inl e ↦ rw e (omega arith)
  | inr e ↦ rw e (unfold count in omega arith)
]

-- The same of the childs that resolveWildCards sees.
pub childs_of-size :
    (raw : Bool) (name : Bytes) (db : RamCachedDb)
    → (size (childs db.root) ≤ count b'.' name → childs_of ram_storage raw name db ≡ [])
      × (ArePlain (childs db.root) → All IsShown (childs_of ram_storage raw name db))
unfolding VarFlags.get_child_names
childs_of-size raw name db =
    let full = set_controlled_var_name raw name in
    let (short, plain) = get_child_names-size full db in
    (
      λ h.
          rw (short (omega (arith, count-set_controlled_var_name raw name)))
            (unfold shown_childs in refl),
      λ p. shown_childs-IsShown raw (get_child_names full db) (plain p),
    )
