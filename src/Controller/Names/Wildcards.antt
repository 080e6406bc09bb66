-- ===== src/Controller/Names/Wildcards.antt =====
-- controller.go, resolveWildCards and resolveVarNames on the storage RamCachedDB: they end, within
-- bounds that the storage and the query give, and leave no wildcard in a name.
use vss.Prelude.{
  ℕ, zero, suc, ◌+◌, ◌≤◌, ◌<◌, Bytes, codes, List, [], ◌∷◌, ◌++◌, ◌≡◌, refl, Bool, false, Option,
  some, arith, All, All-append, append-nil, inl, inr, Option-cases,
}
use vss.Text.{
  contains, contains_text, cut, count, count-append, contains-append, count_lacking, cut_counts,
  contains-cut,
}
use vss.Storage.Tree.{childs}
use vss.Storage.Db.{RamCachedDb}
use vss.Storage.Interface.{ram_storage}
use vss.Controller.Reading.{full_name}
use vss.Controller.Names.{
  names, both, in_front, for_each, for_each_in, each_child, all_child_names, resolve_wild_cards,
  trim_dot, resolve_var_names,
}
use vss.Controller.Names.Increments.{resolve_increment_instructions_none}
use vss.Controller.Names.Tree.{size, IsPlain, IsShown, ArePlain, childs_of-size}

-- Names are found, and none holds a wildcard.
abbrev pub IsResolved : Option (List Bytes) → Type 0
IsResolved o = (found : List Bytes) × (o ≡ some found) × All IsPlain found

both-IsResolved : (o p : Option (List Bytes)) → IsResolved o → IsResolved p → IsResolved (both o p)
both-IsResolved o p (xs, e, hx) (ys, f, hy) =
    (xs ++ ys, rw (e, f) refl, All-append IsPlain xs ys hx hy)

in_front-IsResolved :
    (x : Bytes) (o : Option (List Bytes)) → IsPlain x → IsResolved o → IsResolved (in_front x o)
in_front-IsResolved x o p (xs, e, hx) = (x ∷ xs, rw e refl, (p, hx))

for_each-IsResolved :
    (f : Bytes → Option (List Bytes)) (xs : List Bytes)
    → All IsPlain xs
    → ((x : Bytes) → IsPlain x → IsResolved (f x))
    → IsResolved (for_each f xs)
unfolding for_each
for_each-IsResolved f [] p h = ([], refl, tt)
for_each-IsResolved f (x ∷ xs) (p, ps) h =
    both-IsResolved (f x) (for_each f xs) (h x p) (for_each-IsResolved f xs ps h)

for_each_in-IsResolved :
    (f : Bytes → Option (List Bytes)) (o : Option (List Bytes))
    → IsResolved o
    → ((x : Bytes) → IsPlain x → IsResolved (f x))
    → IsResolved (for_each_in f o)
for_each_in-IsResolved f o (xs, e, ps) h = rw e (for_each-IsResolved f xs ps h)

full_name-IsPlain :
    (parent ch : Bytes) → IsPlain parent → IsPlain ch → IsPlain (full_name parent ch)
full_name-IsPlain [] ch p q = q
full_name-IsPlain (c ∷ parent) ch p q =
    rw (contains-append b'*' (c ∷ parent) (b'.' ∷ ch), p) (unfold contains in q)

each_child-IsResolved :
    (raw : Bool) (deeper : Bytes → Option (List Bytes)) (parent : Bytes) (chs : List Bytes)
    → IsPlain parent
    → All IsShown chs
    → ((ch : Bytes) → IsShown ch → IsResolved (deeper (full_name parent ch)))
    → IsResolved (each_child ram_storage raw deeper parent chs)
unfolding each_child
each_child-IsResolved raw deeper parent [] p cs h = ([], refl, tt)
each_child-IsResolved raw deeper parent (ch ∷ chs) p (c, cs) h =
    both-IsResolved _ _
      (in_front-IsResolved (full_name parent ch) _ (full_name-IsPlain parent ch p c.1) (h ch c))
      (each_child-IsResolved raw deeper parent chs p cs h)

-- Each child has one dot more than its parent.
count-full_name :
    (c : ℕ) (parent ch : Bytes) → count b'.' (c ∷ parent) < count b'.' (full_name (c ∷ parent) ch)
count-full_name c parent ch =
    rw (count-append b'.' (c ∷ parent) (b'.' ∷ ch)) (unfold count in ground arith)

-- Names below a name that is not empty.
below-IsResolved :
    (raw : Bool) (db : RamCachedDb) (depth c : ℕ) (parent : Bytes)
    → ArePlain (childs db.root)
    → size (childs db.root) ≤ depth + count b'.' (c ∷ parent)
    → IsPlain (c ∷ parent)
    → IsResolved (all_child_names ram_storage raw (suc depth) (c ∷ parent) db)
unfolding all_child_names
below-IsResolved raw db zero c parent a h p =
    rw ((childs_of-size raw (c ∷ parent) db).0 (omega arith)) (unfold each_child in ([], refl, tt))
below-IsResolved raw db (suc depth) c parent a h p =
    each_child-IsResolved raw _ (c ∷ parent) _ p ((childs_of-size raw (c ∷ parent) db).1 a) (λ ch q.
      below-IsResolved raw db depth c (parent ++ b'.' ∷ ch) a
        (omega (arith, count-full_name c parent ch)) (full_name-IsPlain (c ∷ parent) ch p q.1))

pub all_child_names-IsResolved :
    (raw : Bool) (db : RamCachedDb) (depth : ℕ) (parent : Bytes)
    → ArePlain (childs db.root)
    → size (childs db.root) ≤ depth
    → IsPlain parent
    → IsResolved (all_child_names ram_storage raw (suc (suc depth)) parent db)
unfolding all_child_names
all_child_names-IsResolved raw db depth [] a h p =
    each_child-IsResolved raw _ [] _ p ((childs_of-size raw [] db).1 a) go
  where
    go : (ch : Bytes) → IsShown ch → IsResolved (all_child_names ram_storage raw (suc depth) ch db)
    go [] (e, q) = cc
    go (c ∷ ch) (e, q) = below-IsResolved raw db depth c ch a (omega arith) q
all_child_names-IsResolved raw db depth (c ∷ parent) a h p =
    below-IsResolved raw db (suc depth) c parent a (omega arith) p

trim_dot-IsPlain : (s : Bytes) → IsPlain s → IsPlain (trim_dot s)
unfolding trim_dot contains
trim_dot-IsPlain [] p = p
trim_dot-IsPlain (c ∷ []) p = ground arith
trim_dot-IsPlain (c ∷ d ∷ s) p = ground (arith, trim_dot-IsPlain (d ∷ s))

resolve_wild_cards-IsResolved :
    (raw : Bool) (db : RamCachedDb) (stars depth : ℕ) (query : Bytes)
    → ArePlain (childs db.root)
    → size (childs db.root) ≤ depth
    → count b'*' query ≤ stars
    → IsResolved (resolve_wild_cards ram_storage raw (suc stars) (suc (suc depth)) query db)
unfolding resolve_wild_cards
resolve_wild_cards-IsResolved raw db zero depth query a h k = elim (Option-cases (cut b'*' query)) [
  | inl e ↦ rw e (query ∷ [], refl, (contains-cut b'*' query e, tt))
  | inr ((parent, remain), e) ↦ absurd (omega (arith, (cut_counts b'*' query parent remain e).1))
]
resolve_wild_cards-IsResolved raw db (suc stars) depth query a h k =
    elim (Option-cases (cut b'*' query)) [
      | inl e ↦ rw e (query ∷ [], refl, (contains-cut b'*' query e, tt))
      | inr ((parent, remain), e) ↦
          let (p, n) = cut_counts b'*' query parent remain e in
          rw e (
            in_front-IsResolved parent _ p (
              for_each_in-IsResolved _ _
                (all_child_names-IsResolved raw db depth (trim_dot parent) a h
                  (trim_dot-IsPlain parent p))
                (λ child q.
                  resolve_wild_cards-IsResolved raw db stars depth (child ++ remain) a h
                    (omega (arith, count-append b'*' child remain, count_lacking b'*' child q)))))
    ]

-- A query without an increment is resolved, with enough fuel for the wildcards that it has and the
-- nodes that the storage has, to names none of which holds a wildcard, if none in the storage does.
pub resolve_var_names-IsPlain :
    (raw : Bool) (db : RamCachedDb) (increments rounds stars depth : ℕ) (query : Bytes)
    → contains_text query (codes "${i") ≡ false
    → ArePlain (childs db.root)
    → size (childs db.root) ≤ depth
    → count b'*' query ≤ stars
    → (found : List Bytes) × (resolve_var_names ram_storage raw
          (suc increments)
          rounds
          (suc stars)
          (suc (suc depth))
          query
          db
        ≡ names found)
      × All IsPlain found
unfolding resolve_var_names for_each
resolve_var_names-IsPlain raw db increments rounds stars depth query e a h k =
    let (found, f, p) = resolve_wild_cards-IsResolved raw db stars depth query a h k in
    (
      found,
      rw (resolve_increment_instructions_none increments rounds query e, f, append-nil) refl,
      p,
    )
