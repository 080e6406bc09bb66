-- ===== src/Controller/Queries/Unmatched.antt =====
-- controller.go, SetVar and DelVar: queries that do not do what they ask for.
use vss.Prelude.{
  ℕ, suc, ◌+◌, ◌≤◌, ◌<◌, Bytes, codes, [], ◌++◌, ◌≡◌, refl, true, false, none, some, arith,
  is_nil-append, Bool-cases, inl, inr,
}
use vss.Prelude.Int.{pos, int_limit}
use vss.Text.{contains_text, contains_text-append}
use vss.DynamicVar.{itoa}
use vss.Storage.Tree.{childs}
use vss.Storage.Db.{RamCachedDb}
use vss.Storage.Interface.{IStorage, ram_storage}
use vss.Controller.VarHelper.{set_controlled_var_name}
use vss.Controller.VarFlags.{get_value}
use vss.Controller.SetVar.{Conf, set_vars}
use vss.Controller.Reading.{get_var, get_vars, del_var}
use vss.Controller.Names.{instruction, rule, resolve_var_names, for_each}
use vss.Controller.Names.Increments.{resolve_increment_instructions_one}
use vss.Controller.Names.Tree.{size, IsPlain, ArePlain}
use vss.Controller.Names.Childs.{resolve_var_names-iff-IsBelow, with_dot-IsPlain}
use vss.Controller.Queries.{
  answered, ask, set_var_query, del_var_query, del_vars_named, del_var_named,
}
use vss.Controller.Queries.RoundTrip.{resolve_var_names_plain}

-- SetVar of a query with one increment reports success, writes nothing and tells nobody; the first
-- value and the limit are not negative, the step is above 0, the limit and the step together fit 64
-- bits, the queries that it makes have no increment, and there is fuel for each value.
pub set_var_query-increment :
    {S : Type 0} (db : IStorage S) (conf : Conf) (depth rounds stars tree i max step : ℕ)
    (query before after value : Bytes) (s : S)
    → instruction query ≡ rule before after (pos i) (pos max) (pos step)
    → 0 < step
    → max + step < int_limit
    → max < rounds + i
    → ((j : ℕ)
        → i ≤ j
        → j ≤ max
        → contains_text (before ++ (itoa (pos j) ++ after)) (codes "${i") ≡ false)
    → set_var_query db conf
        (record { increments = suc (suc depth); rounds = suc rounds; stars = stars; depth = tree })
        query
        value
        s
      ≡ answered (some (record { error = none; state = s; notified = [] }))
unfolding set_var_query ask resolve_var_names for_each set_vars
set_var_query-increment db conf depth rounds stars tree i max step query before after value s e p b
      f h =
    rw (resolve_increment_instructions_one depth rounds i max step query before after e p b f h)
      refl

front_lacks : (s t p : Bytes) → contains_text (s ++ t) p ≡ false → contains_text s p ≡ false
front_lacks s t p h = elim (Bool-cases (contains_text s p)) [
  | inl e ↦ let q : true ≡ false = rw (contains_text-append s t p e) at h in cc
  | inr e ↦ e
]

-- DelVar of `name.*` deletes nothing and fails if `name.` itself has no value, also where variables
-- lie below the name; the query has no increment, `name` and the names in the storage hold no
-- wildcard, and there is fuel for the storage's nodes.
pub del_var_query-fails :
    (conf : Conf) (db : RamCachedDb) (increments rounds stars depth : ℕ) (name : Bytes)
    → contains_text ((name ++ codes ".") ++ codes "*") (codes "${i") ≡ false
    → IsPlain name
    → ArePlain (childs db.root)
    → size (childs db.root) ≤ depth
    → get_value ram_storage
        (set_controlled_var_name conf.allow_raw_db_access (name ++ codes "."))
        db
      ≡ []
    → del_var_query ram_storage conf
        (record {
          increments = suc increments;
          rounds = rounds;
          stars = suc (suc stars);
          depth = suc (suc depth);
        })
        ((name ++ codes ".") ++ codes "*")
        db
      ≡ answered (record { ok = false; state = db; notified = [] })
unfolding del_var_query del_vars_named del_var_named ask del_var get_vars get_var
del_var_query-fails conf db increments rounds stars depth name e p a h v =
    let raw = conf.allow_raw_db_access in
    let (below, q, _) =
      resolve_var_names-iff-IsBelow raw db increments rounds stars depth name e p a h in
    let once_more =
      resolve_var_names_plain ram_storage raw (suc increments) rounds (suc (suc stars))
        (suc (suc depth)) (name ++ codes ".") db (omega arith) (omega arith)
        (front_lacks (name ++ codes ".") (codes "*") (codes "${i") e) (with_dot-IsPlain name p) in
    rw (q, is_nil-append name b'.' [], once_more, v) refl
