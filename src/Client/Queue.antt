-- ===== src/Client/Queue.antt =====
-- varbasedqueue_default_impl.go, `Queue`: a queue over variables. The VarBasedRSM is an argument, and so
-- is what fmt.Sprintf("%v") prints of the functions that NewDynamicVar is given in place of a number.
pub mod Own
use vss.Prelude.{
  ℕ, zero, suc, Bytes, codes, List, [], ◌∷◌, ◌++◌, Bool, true, false, Option, none, some, is_nil,
  if◌then◌else◌,
}
use vss.Prelude.Int.{ℤ, pos, negsuc, le_int}
use vss.DynamicVar.{itoa, get_int64}

-- VarBasedRSM, as far as the queue calls it, on the state of the variables; an error is its text.
pub record VarBasedRsm (R : Type 0) : Type 0 where
  pub get_var : Bytes → R → Option Bytes × List (Bytes × Bytes)
  pub set_var : Bytes → Bytes → R → Option Bytes × R
  pub delete_var : Bytes → R → Option Bytes × R
  pub lock : Bytes → ℕ → R → Option Bytes × R
  pub unlock : Bytes → R → Option Bytes × R

-- The values that NewDynamicVar makes of WithInt(0), WithInt(count + 1) and WithInt(pos + 1).
pub record Printed : Type 0 where
  pub zero_text : Bytes
  pub count_text : Bytes
  pub next_text : Bytes

-- How tryGetNextMessage ends.
pub data Next : Type 0 where
  message : Bytes → Next
  no_message : Bytes → Next
  end_of_queue : Next

abbrev value_or : Bytes → Bytes → Bytes
value_or default [] = default
value_or default (c ∷ s) = c ∷ s

-- queueSize[0].Value
abbrev size_text : Bytes → List (Bytes × Bytes) → Bytes
size_text default [] = default
size_text default ((key, value) ∷ more) = value_or default value

module _ {R : Type 0} (rsm : VarBasedRsm R) (printed : Printed) (queue_name : Bytes) where
  open rsm use {get_var, set_var, delete_var, lock, unlock}

  abbrev pub lock_name : Bytes
  lock_name = queue_name ++ codes ".lock"

  abbrev pub count_name : Bytes
  count_name = queue_name ++ codes ".count"

  abbrev pub next_name : Bytes
  next_name = queue_name ++ codes ".next"

  abbrev pub item_name : Bytes → Bytes
  item_name position = queue_name ++ (codes ".items." ++ position)

  -- The lock is asked for; a lock that is refused is given back, and the system tries to go on.
  abbrev lock_or_go_on : Option Bytes × R → R
  lock_or_go_on (none, r) = r
  lock_or_go_on (some err, r) = (unlock lock_name r).1

  abbrev post_at : Bytes → Bytes → R → R
  post_at position data_text r =
      let r1 = (set_var (item_name position) data_text r).1 in
      let r2 = (set_var count_name printed.count_text r1).1 in (unlock lock_name r2).1

  abbrev post_sized : Bytes → Option Bytes × List (Bytes × Bytes) → R → Option Bytes × R
  post_sized data_text (some err, sizes) r =
      (some (codes "error get queue size: " ++ err), (unlock lock_name r).1)
  post_sized data_text (none, sizes) r =
      (none, post_at (size_text printed.zero_text sizes) data_text r)

  -- PostMessage
  unfoldable pub post_message : Bytes → R → Option Bytes × R
  post_message data_text r =
      let r1 = lock_or_go_on (lock lock_name 5000 r) in
      post_sized data_text (get_var count_name r1) r1

  abbrev take_item : ℤ → Option Bytes × List (Bytes × Bytes) → R → Next × R
  take_item position (some err, items) r = (no_message (codes "error geting var: " ++ err), r)
  take_item position (none, []) r = (no_message (codes "error geting var: no data"), r)
  take_item position (none, (key, value) ∷ items) r =
      let r1 = (set_var next_name printed.next_text r).1 in
      (message value, (delete_var (item_name (itoa position ++ codes ".*")) r1).1)

  abbrev take_at : ℤ → ℤ → R → Next × R
  take_at position count r =
      if le_int count position
      then (end_of_queue, r)
      else take_item position (get_var (item_name (itoa position)) r) r

  abbrev take_counted : ℤ → Option Bytes × List (Bytes × Bytes) → R → Next × R
  take_counted position (some err, counts) r =
      (no_message (codes "error getting message count: " ++ err), r)
  take_counted position (none, []) r =
      (no_message (codes "error getting message count: no vars returned"), r)
  take_counted position (none, (key, value) ∷ counts) r =
      if is_nil value
      then (no_message (codes "error getting message count: no vars returned"), r)
      else take_at position (get_int64 value) r

  abbrev take_next : Option Bytes × List (Bytes × Bytes) → R → Next × R
  take_next (some err, positions) r = (no_message (codes "error getting next position: " ++ err), r)
  take_next (none, []) r = (no_message (codes "error getting next position: no vars returned"), r)
  take_next (none, (key, value) ∷ positions) r =
      take_counted (get_int64 (value_or printed.zero_text value)) (get_var count_name r) r

  -- tryGetNextMessage
  unfoldable pub try_get_next_message : R → Next × R
  try_get_next_message r = take_next (get_var next_name r) r

  -- One round of the loop of consumeMessages; a lock that is refused does not stop it.
  unfoldable pub consume_round : R → Next × R
  consume_round r =
      let taken = try_get_next_message (lock lock_name 1000 r).1 in
      (taken.0, (unlock lock_name taken.1).1)

  abbrev consumed : Next × R → (R → List Bytes × Bool × R) → List Bytes × Bool × R
  consumed (end_of_queue, r) more = ([], true, r)
  consumed (no_message err, r) more = more r
  consumed (message value, r) more = (value ∷ (more r).0, (more r).1, (more r).2)

  -- consumeMessages, for so many rounds: what is delivered, whether the loop ended, and the variables.
  unfoldable pub consume_messages : ℕ → R → List Bytes × Bool × R
  consume_messages zero r = ([], false, r)
  consume_messages (suc rounds) r = consumed (consume_round r) (consume_messages rounds)
