-- ===== src/Client/Queue/Own.antt =====
-- varbasedqueue_default_impl.go: which variables a queue touches.
use vss.Prelude.{ℕ, Bytes, List, [], ◌∷◌, ◌++◌, Option, none, some, Bool-cases, inl, inr}
use vss.Prelude.Int.{ℤ, le_int}
use vss.Client.Queue.{
  VarBasedRsm, Printed, post_message, consume_round, lock_or_go_on, post_sized, take_item, take_at,
  take_counted, take_next, try_get_next_message,
}

-- What a client and the consumers do.
pub data Action : Type 0 where
  posted : Bytes → Action
  round : Action

-- The variables after it.
unfoldable pub after_actions : {R : Type 0} → VarBasedRsm R → Printed → Bytes → List Action → R → R
after_actions rsm printed queue_name [] r = r
after_actions rsm printed queue_name (posted data_text ∷ actions) r =
    after_actions rsm printed queue_name actions (post_message rsm printed queue_name data_text r).1
after_actions rsm printed queue_name (round ∷ actions) r =
    after_actions rsm printed queue_name actions (consume_round rsm printed queue_name r).1

-- What no call for a variable below a name changes.
pub record IsKeptBelow {R : Type 0} (rsm : VarBasedRsm R) (name : Bytes) (P : R → Type 0)
    : Type 0 where
  pub by_set : (rest value : Bytes) (r : R) → P r → P (rsm.set_var (name ++ b'.' ∷ rest) value r).1
  pub by_delete : (rest : Bytes) (r : R) → P r → P (rsm.delete_var (name ++ b'.' ∷ rest) r).1
  pub by_lock :
      (rest : Bytes) (timeout : ℕ) (r : R) → P r → P (rsm.lock (name ++ b'.' ∷ rest) timeout r).1
  pub by_unlock : (rest : Bytes) (r : R) → P r → P (rsm.unlock (name ++ b'.' ∷ rest) r).1

module _ {R : Type 0} (rsm : VarBasedRsm R) (printed : Printed) (queue_name : Bytes)
    (P : R → Type 0) (kept : IsKeptBelow rsm queue_name P) where
  kept_by_going_on : (x : Option Bytes × R) → P x.1 → P (lock_or_go_on rsm printed queue_name x)
  kept_by_going_on (none, r) h = h
  kept_by_going_on (some err, r) h = kept.by_unlock _ r h

  kept_by_post_sized :
      (data_text : Bytes) (sizes : Option Bytes × List (Bytes × Bytes)) (r : R)
      → P r
      → P (post_sized rsm printed queue_name data_text sizes r).1
  kept_by_post_sized data_text (some err, sizes) r h = kept.by_unlock _ r h
  kept_by_post_sized data_text (none, sizes) r h =
      kept.by_unlock _ _ (kept.by_set _ _ _ (kept.by_set _ _ r h))

  kept_by_post_message :
      (data_text : Bytes) (r : R) → P r → P (post_message rsm printed queue_name data_text r).1
  unfolding post_message
  kept_by_post_message data_text r h =
      kept_by_post_sized data_text _ _ (kept_by_going_on _ (kept.by_lock _ 5000 r h))

  kept_by_take_item :
      (position : ℤ) (items : Option Bytes × List (Bytes × Bytes)) (r : R)
      → P r
      → P (take_item rsm printed queue_name position items r).1
  kept_by_take_item position (some err, items) r h = h
  kept_by_take_item position (none, []) r h = h
  kept_by_take_item position (none, (key, value) ∷ items) r h =
      kept.by_delete _ _ (kept.by_set _ _ r h)

  kept_by_take_at :
      (position count : ℤ) (r : R) → P r → P (take_at rsm printed queue_name position count r).1
  kept_by_take_at position count r h = elim (Bool-cases (le_int count position)) [
    | inl e ↦ rw e h
    | inr e ↦ rw e (kept_by_take_item position _ r h)
  ]

  kept_by_take_counted :
      (position : ℤ) (counts : Option Bytes × List (Bytes × Bytes)) (r : R)
      → P r
      → P (take_counted rsm printed queue_name position counts r).1
  kept_by_take_counted position (some err, counts) r h = h
  kept_by_take_counted position (none, []) r h = h
  kept_by_take_counted position (none, (key, []) ∷ counts) r h = h
  kept_by_take_counted position (none, (key, c ∷ value) ∷ counts) r h =
      kept_by_take_at position _ r h

  kept_by_take_next :
      (positions : Option Bytes × List (Bytes × Bytes)) (r : R)
      → P r
      → P (take_next rsm printed queue_name positions r).1
  kept_by_take_next (some err, positions) r h = h
  kept_by_take_next (none, []) r h = h
  kept_by_take_next (none, (key, value) ∷ positions) r h = kept_by_take_counted _ _ r h

  kept_by_consume_round : (r : R) → P r → P (consume_round rsm printed queue_name r).1
  unfolding consume_round try_get_next_message
  kept_by_consume_round r h = kept.by_unlock _ _ (kept_by_take_next _ _ (kept.by_lock _ 1000 r h))

  -- Whatever is posted and consumed in whatever order, and whatever the calls on the variables answer,
  -- a queue sets, deletes, locks and unlocks variables below its own name only: what no such call
  -- changes stays as it is.
  pub after_actions_keep :
      (actions : List Action) (r : R) → P r → P (after_actions rsm printed queue_name actions r)
  unfolding after_actions
  after_actions_keep [] r h = h
  after_actions_keep (posted data_text ∷ actions) r h =
      after_actions_keep actions _ (kept_by_post_message data_text r h)
  after_actions_keep (round ∷ actions) r h =
      after_actions_keep actions _ (kept_by_consume_round r h)
