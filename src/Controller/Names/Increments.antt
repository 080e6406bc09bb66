-- ===== src/Controller/Names/Increments.antt =====
-- controller.go, resolveIncrementInstructions: what a query with an increment instruction resolves to,
-- and a loop of it that does not end.
use vss.Prelude.{
  ℕ, zero, suc, ◌+◌, ◌<◌, ◌≤◌, Bytes, codes, List, [], ◌≡◌, refl, true, false, arith, Bool-cases,
  inl, inr, ◌++◌, ◌∷◌, leb,
}
use vss.Prelude.Int.{ℤ, pos, add, le_int, int_limit}
use vss.Text.{contains_text}
use vss.DynamicVar.{itoa}
use vss.Controller.Names.{
  Resolved, names, unfinished, rule, instruction, rounds_of, resolve_increment_instructions,
}

pub resolve_increment_instructions_none :
    (depth rounds : ℕ) (query : Bytes)
    → contains_text query (codes "${i") ≡ false
    → resolve_increment_instructions (suc depth) rounds query ≡ names (query ∷ [])
unfolding resolve_increment_instructions instruction
resolve_increment_instructions_none depth rounds query e = rw e

add_pos : (i step : ℕ) → i + step < int_limit → add (pos i) (pos step) ≡ pos (i + step)
unfolding add
add_pos i step h = ground arith

leb-false : (i max : ℕ) → max < i → leb i max ≡ false
leb-false i max h = ground arith

rounds_of-names :
    (fuel i max step : ℕ) (body : ℤ → Resolved) (found : ℕ → List Bytes)
    → 0 < step
    → max + step < int_limit
    → max < fuel + i
    → ((j : ℕ) → i ≤ j → j ≤ max → body (pos j) ≡ names (found j))
    → (l : List Bytes) × (rounds_of (suc fuel) (pos i) (pos max) (pos step) body ≡ names l)
unfolding rounds_of le_int
rounds_of-names zero i max step body found p b f h = ([], rw (leb-false i max (omega arith)) refl)
rounds_of-names (suc fuel) i max step body found p b f h = elim (Bool-cases (leb i max)) [
  | inl e ↦
      let (l, q) =
        rounds_of-names fuel (i + step) max step body found p b (omega arith)
          (λ j a c. h j (omega arith) c) in
      (
        found i ++ l,
        rw (e, add_pos i step (ground arith), h i (omega arith) (ground arith), q) refl,
      )
  | inr e ↦ ([], rw e refl)
]

-- A query whose increment makes queries without one, and whose loop ends, is resolved to no name.
pub resolve_increment_instructions_one :
    (depth rounds i max step : ℕ) (query before after : Bytes)
    → instruction query ≡ rule before after (pos i) (pos max) (pos step)
    → 0 < step
    → max + step < int_limit
    → max < rounds + i
    → ((j : ℕ)
        → i ≤ j
        → j ≤ max
        → contains_text (before ++ (itoa (pos j) ++ after)) (codes "${i") ≡ false)
    → resolve_increment_instructions (suc (suc depth)) (suc rounds) query ≡ names []
unfolding resolve_increment_instructions
resolve_increment_instructions_one depth rounds i max step query before after e p b f h =
    let (l, q) =
      rounds_of-names rounds i max step
        (λ j. resolve_increment_instructions (suc depth) (suc rounds) (before ++ (itoa j ++ after)))
        (λ j. (before ++ (itoa (pos j) ++ after)) ∷ []) p b f
        (λ j a c. resolve_increment_instructions_none depth (suc rounds) _ (h j a c)) in
    rw (e, q) refl

add_zero : (i : ℕ) → i < int_limit → add (pos i) (pos 0) ≡ pos i
unfolding add
add_zero i h = ground arith

rounds_of_zero :
    (fuel i max : ℕ) (body : ℤ → Resolved) (found : List Bytes)
    → leb i max ≡ true
    → i < int_limit
    → body (pos i) ≡ names found
    → rounds_of fuel (pos i) (pos max) (pos 0) body ≡ unfinished
unfolding rounds_of le_int
rounds_of_zero zero i max body found h b e = refl
rounds_of_zero (suc fuel) i max body found h b e =
    rw (h, e, add_zero i b, rounds_of_zero fuel i max body found h b e)

-- With a step of 0 the loop over the values of an instruction does not end, however many rounds it
-- has, if the query for its first value is resolved.
pub resolve_increment_instructions-unfinished :
    (depth rounds i max : ℕ) (query before after : Bytes) (found : List Bytes)
    → instruction query ≡ rule before after (pos i) (pos max) (pos 0)
    → leb i max ≡ true
    → i < int_limit
    → resolve_increment_instructions depth rounds (before ++ (itoa (pos i) ++ after)) ≡ names found
    → resolve_increment_instructions (suc depth) rounds query ≡ unfinished
unfolding resolve_increment_instructions
resolve_increment_instructions-unfinished depth rounds i max query before after found e h b k =
    rw (e, rounds_of_zero rounds i max _ found h b k)
