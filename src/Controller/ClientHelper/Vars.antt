-- ===== src/Controller/ClientHelper/Vars.antt =====
-- What RegisterNewObservation and UnregisterObservation do to the list of observed variables.
use vss.Prelude.{
  ℕ, suc, ◌+◌, ◌<◌, Bytes, codes, List, [], ◌∷◌, ◌++◌, ◌≡◌, ap, ◌∙◌, if◌then◌else◌, arith, ◌==◌,
}
use vss.Prelude.Int.{incr-pos, ℤ, pos, rounds, int_limit}
use vss.DynamicVar.{itoa, get_int64}
use vss.DynamicVar.RoundTrip.{get_int64-itoa}
use vss.Storage.Interface.{IStorage}
use vss.Controller.ClientHelper.{
  update_live_time, get_observing_vars_count, observed_at, register_new_observation, register_at,
}
use vss.Controller.ClientHelper.Listing.{from_place, from_place_ext, from_place_last}
use vss.Controller.ClientHelper.Observing.{count, place, get-set_field, get-update_live_time}

abbrev pub vars_name : Bytes → Bytes
vars_name var_name = codes "vars." ++ var_name

module _ {S : Type 0} (db : IStorage S) (client_id : Bytes) where
  open db use {set, get, delete_value}

  -- The variables that the client observes, in the order in which it began to.
  unfoldable pub observed : S → List Bytes
  observed s =
      from_place (λ i. observed_at db client_id i s)
        (rounds (get_observing_vars_count db client_id s)) 0

  pub count-update_live_time :
      (now : ℤ) (s : S)
      → get_observing_vars_count db client_id (update_live_time db client_id now s)
        ≡ get_observing_vars_count db client_id s
  unfolding get_observing_vars_count
  count-update_live_time now s =
      ap get_int64 (get-update_live_time db client_id count (itoa (pos 0)) now s)

  observed_at-update_live_time :
      (i : ℕ) (now : ℤ) (s : S)
      → observed_at db client_id i (update_live_time db client_id now s)
        ≡ observed_at db client_id i s
  unfolding observed_at
  observed_at-update_live_time i now s = get-update_live_time db client_id (place i) [] now s

  pub observed-update_live_time :
      (now : ℤ) (s : S) → observed (update_live_time db client_id now s) ≡ observed s
  unfolding observed
  observed-update_live_time now s =
      rw count-update_live_time (from_place_ext _ 0 λ i a b. observed_at-update_live_time i now s)

  count-register_at :
      (v : Bytes) (n : ℕ) (s : S)
      → suc n < int_limit
      → get_observing_vars_count db client_id (register_at db client_id (pos n) v s) ≡ pos (suc n)
  unfolding get_observing_vars_count register_at itoa
  count-register_at v n s k =
      rw
        (
          get-set_field db client_id count (place n),
          get-set_field db client_id count count,
          incr-pos n k,
        )
        (get_int64-itoa (pos (suc n)) k)

  observed_at-register_at :
      (v : Bytes) (n i : ℕ) (s : S)
      → observed_at db client_id i (register_at db client_id (pos n) v s)
        ≡ (if i == n then v else observed_at db client_id i s)
  unfolding observed_at register_at itoa
  observed_at-register_at v n i s =
      rw
        (get-set_field db client_id (place i) (place n), get-set_field db client_id (place i) count)

  observed-register_at :
      (v : Bytes) (n : ℕ) (s : S)
      → get_observing_vars_count db client_id s ≡ pos n
      → suc n < int_limit
      → observed (register_at db client_id (pos n) v s) ≡ observed s ++ v ∷ []
  unfolding observed rounds
  observed-register_at v n s h k =
      rw (count-register_at v n s k, h)
        (from_place_last _ _ n 0 (λ i a b. observed_at-register_at v n i s ∙ ground arith)
          ∙ ap (λ x. from_place (λ i. observed_at db client_id i s) n 0 ++ x ∷ [])
              (observed_at-register_at v n (0 + n) s ∙ ground arith))

  -- A new observation is the last one in the list of the client's variables, which is otherwise the
  -- same.
  pub observed-register_new_observation :
      (var_name : Bytes) (now : ℤ) (n : ℕ) (s : S)
      → get_observing_vars_count db client_id s ≡ pos n
      → suc n < int_limit
      → observed (register_new_observation db client_id var_name now s)
        ≡ observed s ++ vars_name var_name ∷ []
  unfolding register_new_observation
  observed-register_new_observation var_name now n s h k =
      let e = count-update_live_time now s ∙ h in
      rw e (
        observed-register_at (vars_name var_name) n _ e k
        ∙ ap (λ l. l ++ vars_name var_name ∷ []) (observed-update_live_time now s))
