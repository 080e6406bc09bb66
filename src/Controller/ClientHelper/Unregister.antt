-- ===== src/Controller/ClientHelper/Unregister.antt =====
-- UnregisterObservation takes the first place of the variable out of the client's list.
use vss.Prelude.{
  ℕ, zero, suc, ◌+◌, ◌-◌, ◌≤◌, ◌<◌, Bytes, [], ◌≡◌, refl, sym, ap, ◌∙◌, Bool, true, false, ◌&&◌,
  str_eq, leb, ltb, if◌then◌else◌, arith, Bool-cases, inl, inr, ◌==◌, Option, none, some,
}
use vss.Prelude.Int.{ℤ, pos, negsuc, decr, rounds, int_limit, IsInt}
use vss.DynamicVar.{itoa, get_int64}
use vss.DynamicVar.RoundTrip.{get_int64-itoa, get_int64-IsInt}
use vss.Storage.Interface.{IStorage}
use vss.Controller.ClientHelper.{
  update_live_time, get_observing_vars_count, observed_at, find_var_from,
  find_var_index_on_observing_vars, shift_vars, unregister_found, unregister_observation,
}
use vss.Controller.ClientHelper.Listing.{erase_text, erase_text-from_place, erase_text_none}
use vss.Controller.ClientHelper.Observing.{
  Field, count, place, field_key, same, get-set_field, get-delete_value_place,
}
use vss.Controller.ClientHelper.Vars.{observed, vars_name, observed-update_live_time}

abbrev moved : Field → ℕ → ℕ → Bool
moved count j left = false
moved (place i) j left = leb j i && ltb i (j + left)

abbrev next : Field → Field
next count = count
next (place i) = place (suc i)

count_of_rounds : (c : ℤ) (n : ℕ) → rounds c ≡ suc n → IsInt c → (c ≡ pos (suc n)) × (n < int_limit)
unfolding rounds
count_of_rounds (pos m) n h fits = (ap pos h, omega arith)
count_of_rounds (negsuc m) n h fits = absurd (omega arith)

module _ {S : Type 0} (db : IStorage S) (client_id : Bytes) where
  open db use {set, get, delete_value}

  get-shift_vars :
      (f : Field) (left j : ℕ) (default : Bytes) (s : S)
      → get (field_key client_id f) default (shift_vars db client_id left j s) ≡ (
          if moved f j left
          then get (field_key client_id (next f)) [] s
          else get (field_key client_id f) default s)
  unfolding shift_vars observed_at
  get-shift_vars count zero j default s = refl
  get-shift_vars (place i) zero j default s = ground arith
  get-shift_vars count (suc left) j default s =
      get-shift_vars count left (suc j) default _
      ∙ get-set_field db client_id count (place j) _ default s
  get-shift_vars (place i) (suc left) j default s =
      get-shift_vars (place i) left (suc j) default _
      ∙ rw
          (
            get-set_field db client_id (place i) (place j),
            get-set_field db client_id (place (suc i)) (place j),
          )
          (ground arith)

  get-unregister_found :
      (f : Field) (n i : ℕ) (default : Bytes) (s : S)
      → same f (place n) ≡ false
      → get (field_key client_id f) default (unregister_found db client_id (some i) (suc n) s) ≡ (
          if same f count
          then itoa (pos n)
          else if moved f i (n - i)
          then get (field_key client_id (next f)) [] s
          else get (field_key client_id f) default s)
  unfolding unregister_found decr
  get-unregister_found f n i default s h =
      let p : suc n - 1 ≡ n = omega arith in
      rw (
        get-set_field db client_id f count,
        p,
        get-delete_value_place db client_id f n default _ h,
        get-shift_vars f,
      )

  count-unregister_found :
      (n i : ℕ) (s : S)
      → n < int_limit
      → get_observing_vars_count db client_id (unregister_found db client_id (some i) (suc n) s)
        ≡ pos n
  unfolding get_observing_vars_count
  count-unregister_found n i s h =
      ap get_int64 (get-unregister_found count n i (itoa (pos 0)) s refl) ∙ get_int64-itoa (pos n) h

  observed_at-unregister_found :
      (n i k : ℕ) (s : S)
      → k < n
      → observed_at db client_id k (unregister_found db client_id (some i) (suc n) s)
        ≡ (if leb i k then observed_at db client_id (suc k) s else observed_at db client_id k s)
  unfolding observed_at
  observed_at-unregister_found n i k s h =
      get-unregister_found (place k) n i [] s (ground arith) ∙ ground arith

  observed-unregister_found :
      (v : Bytes) (n i : ℕ) (s : S)
      → get_observing_vars_count db client_id s ≡ pos (suc n)
      → n < int_limit
      → i ≤ n
      → str_eq (observed_at db client_id i s) v ≡ true
      → ((k : ℕ) → k < i → str_eq (observed_at db client_id k s) v ≡ false)
      → observed db client_id (unregister_found db client_id (some i) (suc n) s)
        ≡ erase_text v (observed db client_id s)
  unfolding observed rounds
  observed-unregister_found v n i s h fits le here before =
      rw (count-unregister_found n i s fits, h)
        (erase_text-from_place v _ _ n 0 i (omega arith) (omega arith) here (λ k a b. before k b)
          (λ k a. observed_at-unregister_found n i k s (omega arith) ∙ ground arith)
          (λ k a b. observed_at-unregister_found n i k s (omega arith) ∙ ground arith))

  -- What the search says of the places from `i` on, `left` of them.
  abbrev SearchSays : Bytes → S → ℕ → ℕ → Option ℕ → Type 0
  SearchSays v s left i none =
      (k : ℕ) → i ≤ k → k < i + left → str_eq (observed_at db client_id k s) v ≡ false
  SearchSays v s left i (some k) =
      (i ≤ k)
      × (k < i + left)
      × (str_eq (observed_at db client_id k s) v ≡ true)
      × ((j : ℕ) → i ≤ j → j < k → str_eq (observed_at db client_id j s) v ≡ false)

  SearchSays-cons :
      (v : Bytes) (s : S) (left i : ℕ) (o : Option ℕ)
      → str_eq (observed_at db client_id i s) v ≡ false
      → SearchSays v s left (suc i) o
      → SearchSays v s (suc left) i o
  SearchSays-cons v s left i none e h = λ k a b. elim (Bool-cases (i == k)) [
    | inl q ↦ let p : k ≡ i = ground arith in rw p e
    | inr q ↦ h k (ground arith) (omega arith)
  ]
  SearchSays-cons v s left i (some k) e (a, b, c, d) = (
    omega arith,
    omega arith,
    c,
    λ j x y. elim (Bool-cases (i == j)) [
      | inl q ↦ let p : j ≡ i = ground arith in rw p e
      | inr q ↦ d j (ground arith) y
    ],
  )

  find_var_from-SearchSays :
      (v : Bytes) (s : S) (left i : ℕ)
      → SearchSays v s left i (find_var_from db client_id left i v s)
  unfolding find_var_from
  find_var_from-SearchSays v s zero i = λ k a b. absurd (omega arith)
  find_var_from-SearchSays v s (suc left) i =
      elim (Bool-cases (str_eq (observed_at db client_id i s) v)) [
        | inl e ↦ rw (e, SearchSays) (omega arith, omega arith, e, λ j x y. absurd (omega arith))
        | inr e ↦
            rw (e, SearchSays)
              (SearchSays-cons v s left i _ e (find_var_from-SearchSays v s left (suc i)))
      ]

  observed-unregister_result :
      (v : Bytes) (n : ℕ) (s : S) (o : Option ℕ)
      → rounds (get_observing_vars_count db client_id s) ≡ n
      → SearchSays v s n 0 o
      → observed db client_id (unregister_found db client_id o n s)
        ≡ erase_text v (observed db client_id s)
  observed-unregister_result v n s none h says =
      unfold observed unregister_found in rw h (sym (erase_text_none v _ n 0 says))
  observed-unregister_result v zero s (some k) h (a, b, c, d) = absurd (omega arith)
  observed-unregister_result v (suc n) s (some k) h (a, b, c, d) =
      let (e, fits) =
        count_of_rounds (get_observing_vars_count db client_id s) n h
          (unfold get_observing_vars_count in get_int64-IsInt _) in
      observed-unregister_found v n k s e fits (omega arith) c (λ j y. d j (omega arith) y)

  -- Unregistering takes the oldest entry of the variable out of the client's list, keeps all the
  -- others in their order, and leaves the list as it is if the variable is not in it.
  pub observed-unregister_observation :
      (var_name : Bytes) (now : ℤ) (s : S)
      → observed db client_id (unregister_observation db client_id var_name now s)
        ≡ erase_text (vars_name var_name) (observed db client_id s)
  unfolding unregister_observation find_var_index_on_observing_vars
  observed-unregister_observation var_name now s =
      observed-unregister_result (vars_name var_name) _ (update_live_time db client_id now s) _ refl
        (find_var_from-SearchSays (vars_name var_name) _ _ 0)
      ∙ ap (erase_text (vars_name var_name)) (observed-update_live_time db client_id now s)
