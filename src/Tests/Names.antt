-- ===== src/Tests/Names.antt =====
-- Queries of sources/controller/controller.go at concrete inputs.
use vss.Prelude.{
  ℕ, zero, suc, Bytes, codes, List, [], ◌∷◌, ◌++◌, ◌≡◌, refl, str_eq, true, false, none, some,
  arith, All, ◌↔◌, ◌≤◌,
}
use mathlib.Core.List.{Memᴰ}
use vss.Prelude.Int.{pos, le_int}
use vss.Text.{drop, contains, contains_text, count, has_prefix, cut, split}
use vss.DynamicVar.{atoi, itoa, format}
use vss.Storage.Tree
use vss.Storage.Tree.{ram_node, child, no_childs, childs, lookup}
use vss.Storage.Keys.{first_name}
use vss.Storage.Scroll.{scroll_tree, read_step}
use vss.Storage.Db
use vss.Storage.Db.{RamCachedDb}
use vss.Storage.Interface.{ram_storage}
use vss.Controller.VarHelper.{set_controlled_var_name}
use vss.Controller.VarFlags
use vss.Controller.VarFlags.{shown_childs, is_locked, get_flag, flag_name, get_value}
use vss.Controller.SetVar.{Conf, check_var, get_only, contains_underscore_dot, any_longer}
use vss.Controller.SetVar.Outcomes.{filtered}
use vss.Controller.Names.{
  names, rule, resolve_var_names, resolve_increment_instructions, instruction, resolve_wild_cards,
  for_each, trim_dot, all_child_names, each_child, before_mark,
}
use vss.Controller.Names.Tree.{size, IsPlain, ArePlain}
use vss.Controller.Names.Below.{IsBelow}
use vss.Controller.Names.Wildcards.{resolve_var_names-IsPlain}
use vss.Controller.Names.Childs.{resolve_var_names-iff-IsBelow}
use vss.Controller.Queries.{Fuel, answered, set_var_query, del_var_query}
use vss.Controller.Queries.Unmatched.{set_var_query-increment, del_var_query-fails}

-- A storage with `a.b` and `a.c.d`, and no value of `a`.
abbrev pub a_tree : RamCachedDb
a_tree = record {
  root = ram_node false [] (
      child (codes "vars")
        (ram_node false [] (
          child (codes "a")
            (ram_node false [] (
              child (codes "b") (ram_node true (codes "1") no_childs) (
                child (codes "c")
                  (ram_node false []
                    (child (codes "d") (ram_node true (codes "2") no_childs) no_childs))
                  no_childs)))
            no_childs))
        no_childs);
  pending_changes = true;
}

a_tree-ArePlain : ArePlain (childs a_tree.root)
unfolding ArePlain contains
a_tree-ArePlain = (refl, (refl, (refl, tt, (refl, (refl, tt, tt), tt)), tt), tt)

a_tree_size : size (childs a_tree.root) ≤ 5
unfolding size
a_tree_size = omega arith

a_star-lacks : contains_text (codes "a.*") (codes "${i") ≡ false
unfolding contains_text has_prefix
a_star-lacks = refl

one_star : count b'*' (codes "a.*") ≤ 1
unfolding count
one_star = omega arith

a-IsPlain : IsPlain (codes "a")
unfolding contains
a-IsPlain = refl

resolve_var_names-IsPlain_example :
    (found : List Bytes) × (resolve_var_names ram_storage false 1 1 2 7 (codes "a.*") a_tree
      ≡ names found)
    × All IsPlain found
resolve_var_names-IsPlain_example =
    resolve_var_names-IsPlain false a_tree 0 1 1 5 (codes "a.*") a_star-lacks a_tree-ArePlain
      a_tree_size one_star

resolve_var_names-iff-IsBelow_example :
    (below : List Bytes) × (resolve_var_names ram_storage false 1 1 2 7 (codes "a.*") a_tree
      ≡ names (codes "a." ∷ below))
    × ((n : Bytes) → Memᴰ n below ↔ IsBelow ram_storage false a_tree (codes "a") n)
resolve_var_names-iff-IsBelow_example =
    resolve_var_names-iff-IsBelow false a_tree 0 1 0 5 (codes "a") a_star-lacks a-IsPlain
      a_tree-ArePlain a_tree_size

a_star_names :
    resolve_var_names ram_storage false 1 1 2 7 (codes "a.*") a_tree
    ≡ names (codes "a." ∷ codes "a.b" ∷ codes "a.c" ∷ codes "a.c.d" ∷ [])
unfolding resolve_var_names resolve_wild_cards for_each resolve_increment_instructions instruction
    contains_text has_prefix cut trim_dot all_child_names each_child VarFlags.get_child_names
    shown_childs set_controlled_var_name Db.get_child_names scroll_tree first_name read_step lookup
    Tree.names contains str_eq
a_star_names = refl

-- A configuration without raw access.
abbrev pub small : Conf
small = record {
  max_time_waiting_client_second = pos 60;
  max_key_length = pos 255;
  max_key_word_length = pos 64;
  max_value_size = pos 1000;
  allow_raw_db_access = false;
}

abbrev pub fuel : Fuel
fuel = record { increments = 2; rounds = 3; stars = 2; depth = 7 }

pub lamp-lacks : contains_text (codes "lamp") (codes "${i") ≡ false
unfolding contains_text has_prefix
lamp-lacks = refl

pub lamp-IsPlain : IsPlain (codes "lamp")
unfolding contains
lamp-IsPlain = refl

pub lamp_filtered : filtered (codes "lamp") ≡ codes "lamp"
unfolding get_only contains
lamp_filtered = refl

pub lamp_checked : check_var small (codes "lamp") (codes "on") ≡ none
unfolding check_var contains_underscore_dot any_longer le_int split
lamp_checked = refl

pub lamp_free : is_locked ram_storage (set_controlled_var_name false (codes "lamp")) a_tree ≡ false
unfolding is_locked get_flag flag_name set_controlled_var_name has_prefix Db.get scroll_tree
    first_name cut read_step lookup str_eq
lamp_free = refl

x_rule : instruction (codes "x${i;1,2}") ≡ rule (codes "x") [] (pos 1) (pos 2) (pos 1)
unfolding instruction contains_text has_prefix before_mark cut split drop atoi
x_rule = refl

x_values :
    (j : ℕ)
    → 1 ≤ j
    → j ≤ 2
    → contains_text (codes "x" ++ (itoa (pos j) ++ [])) (codes "${i") ≡ false
unfolding contains_text has_prefix itoa format
x_values zero a b = absurd (omega arith)
x_values (suc zero) a b = refl
x_values (suc (suc zero)) a b = refl
x_values (suc (suc (suc j))) a b = absurd (omega arith)

set_var_query-increment_example :
    set_var_query ram_storage small fuel (codes "x${i;1,2}") (codes "on") a_tree
    ≡ answered (some (record { error = none; state = a_tree; notified = [] }))
set_var_query-increment_example =
    set_var_query-increment ram_storage small 0 2 2 7 1 2 1 (codes "x${i;1,2}") (codes "x") []
      (codes "on") a_tree x_rule (omega arith) (omega arith) (omega arith) x_values

a_without_value : get_value ram_storage (set_controlled_var_name false (codes "a.")) a_tree ≡ []
unfolding get_value set_controlled_var_name has_prefix Db.get scroll_tree first_name cut read_step
    lookup str_eq
a_without_value = refl

del_var_query-fails_example :
    del_var_query ram_storage small fuel (codes "a.*") a_tree
    ≡ answered (record { ok = false; state = a_tree; notified = [] })
del_var_query-fails_example =
    del_var_query-fails small a_tree 1 3 0 5 (codes "a") a_star-lacks a-IsPlain a_tree-ArePlain
      a_tree_size a_without_value

endless_rule : instruction (codes "x${i;1,2,0}") ≡ rule (codes "x") [] (pos 1) (pos 2) (pos 0)
unfolding instruction contains_text has_prefix before_mark cut split drop atoi
endless_rule = refl

x_one :
    resolve_increment_instructions 1 9 (codes "x" ++ (itoa (pos 1) ++ [])) ≡ names (codes "x1" ∷ [])
unfolding resolve_increment_instructions instruction contains_text has_prefix itoa format
x_one = refl
