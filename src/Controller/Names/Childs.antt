-- ===== src/Controller/Names/Childs.antt =====
-- controller.go, resolveVarNames on the storage RamCachedDB: the names that `name.*` stands for.
use vss.Prelude.{
  ℕ, suc, ◌≤◌, Bytes, codes, List, [], ◌∷◌, ◌++◌, ◌≡◌, refl, Bool, false, Option, some, All,
  append-nil, ◌↔◌, ap,
}
use mathlib.Core.List.{Memᴰ}
use vss.Text.{contains, contains_text, cut_at_first, cut_lacking, contains-append}
use vss.Storage.Tree.{childs}
use vss.Storage.Db.{RamCachedDb}
use vss.Storage.Interface.{ram_storage}
use vss.Controller.Names.{names, for_each, resolve_wild_cards, trim_dot, resolve_var_names}
use vss.Controller.Names.Below.{IsBelow, all_child_names-IsBelow, all_child_names-Mem}
use vss.Controller.Names.Tree.{size, IsPlain, ArePlain}
use vss.Controller.Names.Wildcards.{all_child_names-IsResolved}
use vss.Controller.Names.Increments.{resolve_increment_instructions_none}

trim_dot-append : (s : Bytes) → trim_dot (s ++ codes ".") ≡ s
unfolding trim_dot
trim_dot-append [] = refl
trim_dot-append (c ∷ []) = refl
trim_dot-append (c ∷ d ∷ s) = ap (λ t. c ∷ t) (trim_dot-append (d ∷ s))

for_each-some :
    (f : Bytes → Option (List Bytes)) (xs : List Bytes)
    → All IsPlain xs
    → ((x : Bytes) → IsPlain x → f x ≡ some (x ∷ []))
    → for_each f xs ≡ some xs
unfolding for_each
for_each-some f [] p h = refl
for_each-some f (x ∷ xs) (p, ps) h = rw (h x p, for_each-some f xs ps h)

resolve_wild_cards-IsPlain :
    (raw : Bool) (db : RamCachedDb) (stars depth : ℕ) (name : Bytes)
    → IsPlain name
    → resolve_wild_cards ram_storage raw (suc stars) depth (name ++ []) db ≡ some (name ∷ [])
unfolding resolve_wild_cards
resolve_wild_cards-IsPlain raw db stars depth name p = rw (append-nil, cut_lacking b'*' name p)

pub with_dot-IsPlain : (name : Bytes) → IsPlain name → IsPlain (name ++ codes ".")
with_dot-IsPlain name p = rw (contains-append b'*' name (codes "."), p) (unfold contains in refl)

-- A query `name.*` stands for `name.`, with its dot, and for the names that lie below `name`, all of
-- them and no others: the children of its node in the storage, their children and so on, but for
-- what is behind an empty name and, without raw access, behind a name that starts with an underscore.
-- The query has no increment, `name` and the names in the storage hold no wildcard, and there is fuel
-- for the nodes that the storage has.
pub resolve_var_names-iff-IsBelow :
    (raw : Bool) (db : RamCachedDb) (increments rounds stars depth : ℕ) (name : Bytes)
    → contains_text ((name ++ codes ".") ++ codes "*") (codes "${i") ≡ false
    → IsPlain name
    → ArePlain (childs db.root)
    → size (childs db.root) ≤ depth
    → (below : List Bytes) × (resolve_var_names ram_storage raw
          (suc increments)
          rounds
          (suc (suc stars))
          (suc (suc depth))
          ((name ++ codes ".") ++ codes "*")
          db
        ≡ names ((name ++ codes ".") ∷ below))
      × ((n : Bytes) → Memᴰ n below ↔ IsBelow ram_storage raw db name n)
unfolding resolve_var_names resolve_wild_cards for_each
resolve_var_names-iff-IsBelow raw db increments rounds stars depth name e p a h =
    let (below, found, plain) = all_child_names-IsResolved raw db depth name a h p in
    (
      below,
      rw
          (
            resolve_increment_instructions_none increments rounds _ e,
            cut_at_first b'*' (name ++ codes ".") [] (with_dot-IsPlain name p),
            trim_dot-append name,
            found,
            for_each-some _ below plain (resolve_wild_cards-IsPlain raw db stars (suc (suc depth))),
            append-nil,
          )
          refl,
      λ n. (
        all_child_names-IsBelow ram_storage raw db (suc (suc depth)) name n below found,
        all_child_names-Mem ram_storage raw db (suc (suc depth)) name n below found,
      ),
    )
