-- ===== src/Controller/Names.antt =====
-- controller.go, `TheController`: the names that a query stands for (resolveVarNames). The storage is
-- only read. `unfinished` and `none` say that the fuel ran out.
pub mod Below
pub mod Childs
pub mod Increments
pub mod Tree
pub mod Wildcards
use vss.Prelude.{
  ℕ, zero, suc, ◌+◌, Bytes, codes, List, [], ◌∷◌, ◌++◌, Bool, true, false, ltb, ◌==◌, if◌then◌else◌,
  length, Option, none, some,
}
use vss.Prelude.Int.{ℤ, pos, add, le_int}
use vss.Text.{drop, cut, split, contains_text, has_prefix}
use vss.DynamicVar.{atoi, itoa}
use vss.Storage.Interface.{IStorage}
use vss.Controller.VarHelper.{set_controlled_var_name}
use vss.Controller.VarFlags.{get_child_names}
use vss.Controller.Reading.{full_name}

pub data Resolved : Type 0 where
  names : List Bytes → Resolved
  failed crashes unfinished : Resolved

-- What a query says of its first `${…}`, if it has an increment instruction at all.
pub data Instruction : Type 0 where
  no_instruction bad_instruction bad_slice : Instruction
  rule : Bytes → Bytes → ℤ → ℤ → ℤ → Instruction

-- strings.Index of "${", or the length where there is none.
unfoldable pub before_mark : Bytes → Bytes
before_mark [] = []
before_mark (c ∷ s) =
    let later = before_mark s in if has_prefix (c ∷ s) (codes "${") then [] else c ∷ later

abbrev rule_of : Bytes → Bytes → Option ℤ → Option ℤ → Option ℤ → Instruction
rule_of before after (some initial) (some max) (some step) = rule before after initial max step
rule_of before after (some initial) (some max) none = bad_instruction
rule_of before after (some initial) none step = bad_instruction
rule_of before after none max step = bad_instruction

abbrev instruction_of : Bytes → Bytes → List Bytes → Instruction
instruction_of before after [] = bad_instruction
instruction_of before after (initial ∷ []) = bad_instruction
instruction_of before after (initial ∷ max ∷ []) =
    rule_of before after (atoi initial) (atoi max) (some (pos 1))
instruction_of before after (initial ∷ max ∷ step ∷ more) =
    rule_of before after (atoi initial) (atoi max) (atoi step)

-- The slice query[start : end of the first "}"], which panics if it ends before it starts.
abbrev slice_rule : Bytes → Option (Bytes × Bytes) → Instruction
slice_rule before none = bad_slice
slice_rule before (some (until_end, after)) =
    if ltb (length until_end) (length before + 4)
    then bad_slice
    else instruction_of before after (split b',' (drop (length before + 4) until_end))

unfoldable pub instruction : Bytes → Instruction
instruction query =
    if contains_text query (codes "${i")
    then slice_rule (before_mark query) (cut b'}' query)
    else no_instruction

-- After one round: an error of it ends the loop.
abbrev and_then : Resolved → Resolved → Resolved
and_then (names found) (names later) = names (found ++ later)
and_then (names found) failed = failed
and_then (names found) crashes = crashes
and_then (names found) unfinished = unfinished
and_then failed later = failed
and_then crashes later = crashes
and_then unfinished later = unfinished

-- for i := initialValue; i <= maxValue; i += step
unfoldable pub rounds_of : ℕ → ℤ → ℤ → ℤ → (ℤ → Resolved) → Resolved
rounds_of zero i max step body = unfinished
rounds_of (suc fuel) i max step body =
    let rest = rounds_of fuel (add i step) max step body in
    if le_int i max then and_then (body i) rest else names []

-- The function returns an empty list after its loop, and not what the loop collected.
abbrev after_rounds : Resolved → Resolved
after_rounds (names found) = names []
after_rounds failed = failed
after_rounds crashes = crashes
after_rounds unfinished = unfinished

abbrev resolve_instruction : Instruction → Bytes → ℕ → (Bytes → Resolved) → Resolved
resolve_instruction no_instruction query rounds deeper = names (query ∷ [])
resolve_instruction bad_instruction query rounds deeper = failed
resolve_instruction bad_slice query rounds deeper = crashes
resolve_instruction (rule before after initial max step) query rounds deeper =
    after_rounds (rounds_of rounds initial max step (λ i. deeper (before ++ (itoa i ++ after))))

-- resolveIncrementInstructions, with fuel for its depth and for the rounds of its loops.
unfoldable pub resolve_increment_instructions : ℕ → ℕ → Bytes → Resolved
resolve_increment_instructions zero rounds query = unfinished
resolve_increment_instructions (suc depth) rounds query =
    resolve_instruction (instruction query) query rounds
      (resolve_increment_instructions depth rounds)

-- strings.TrimSuffix(parentName, ".")
unfoldable pub trim_dot : Bytes → Bytes
trim_dot [] = []
trim_dot (c ∷ []) = if c == b'.' then [] else c ∷ []
trim_dot (c ∷ d ∷ s) = c ∷ trim_dot (d ∷ s)

abbrev pub both {ℓ} : {A : Type ℓ} → Option (List A) → Option (List A) → Option (List A)
both none ys = none
both (some xs) none = none
both (some xs) (some ys) = some (xs ++ ys)

-- The results of a call for each element, one behind the other.
unfoldable pub for_each : (Bytes → Option (List Bytes)) → List Bytes → Option (List Bytes)
for_each f [] = some []
for_each f (x ∷ xs) = both (f x) (for_each f xs)

abbrev in_front : Bytes → Option (List Bytes) → Option (List Bytes)
in_front x none = none
in_front x (some xs) = some (x ∷ xs)

abbrev for_each_in : (Bytes → Option (List Bytes)) → Option (List Bytes) → Option (List Bytes)
for_each_in f none = none
for_each_in f (some xs) = for_each f xs

abbrev finished : Option (List Bytes) → Resolved
finished none = unfinished
finished (some found) = names found

module _ {S : Type 0} (db : IStorage S) (raw : Bool) where
  abbrev pub childs_of : Bytes → S → List Bytes
  childs_of name s = get_child_names db (set_controlled_var_name raw name) raw s

  -- The loop of resolveWildCardsgetAllChildNames over the children of one name.
  unfoldable pub each_child :
      (Bytes → Option (List Bytes)) → Bytes → List Bytes → Option (List Bytes)
  each_child deeper parent [] = some []
  each_child deeper parent (ch ∷ childs) =
      both (in_front (full_name parent ch) (deeper (full_name parent ch)))
        (each_child deeper parent childs)

  -- resolveWildCardsgetAllChildNames, with fuel for the depth of the tree.
  unfoldable pub all_child_names : ℕ → Bytes → S → Option (List Bytes)
  all_child_names zero parent s = none
  all_child_names (suc depth) parent s =
      each_child (λ full. all_child_names depth full s) parent (childs_of parent s)

  abbrev below_star :
      ℕ → Bytes → S → (Bytes → Option (List Bytes)) → Option (Bytes × Bytes) → Option (List Bytes)
  below_star depth query s deeper none = some (query ∷ [])
  below_star depth query s deeper (some (parent, remain)) =
      in_front parent (
        for_each_in (λ child. deeper (child ++ remain)) (all_child_names depth (trim_dot parent) s))

  -- resolveWildCards, with fuel for the wildcards that are left, and for the depth of the tree.
  unfoldable pub resolve_wild_cards : ℕ → ℕ → Bytes → S → Option (List Bytes)
  resolve_wild_cards zero depth query s = none
  resolve_wild_cards (suc stars) depth query s =
      below_star depth query s (λ q. resolve_wild_cards stars depth q s) (cut b'*' query)

  -- The loop of resolveVarNames over the names that the increments give.
  abbrev each_wild : (Bytes → Option (List Bytes)) → Resolved → Resolved
  each_wild f (names found) = finished (for_each f found)
  each_wild f failed = failed
  each_wild f crashes = crashes
  each_wild f unfinished = unfinished

  -- resolveVarNames
  unfoldable pub resolve_var_names : (_ _ _ _ : ℕ) → Bytes → S → Resolved
  resolve_var_names increments rounds stars depth query s =
      each_wild (λ name. resolve_wild_cards stars depth name s)
        (resolve_increment_instructions increments rounds query)
