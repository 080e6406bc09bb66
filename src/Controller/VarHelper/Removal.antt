-- ===== src/Controller/VarHelper/Removal.antt =====
-- Removing an observation takes its newest entry out of the observers' list.
use vss.Prelude.{
  ℕ, zero, suc, ◌+◌, ◌-◌, ◌≤◌, ◌<◌, Bytes, [], ◌≡◌, refl, sym, ap, ◌∙◌, Bool, true, false, ◌&&◌,
  ◌==◌, leb, ltb, if◌then◌else◌, arith, Bool-cases, inl, inr,
}
use vss.Prelude.Int.{ℤ, pos, negsuc, decr, rounds, int_limit, IsInt}
use vss.DynamicVar.{itoa, format, get_int64}
use vss.DynamicVar.RoundTrip.{get_int64-itoa, get_int64-IsInt}
use vss.Storage.Interface.{IStorage}
use vss.Controller.VarHelper.Listing.{
  erase_first, newest_first, observation_eq, erase_first-newest_first, erase_first_none,
}
use vss.Controller.VarHelper.{
  Observation, list_count, list_entry, shift_step, shift_left, remove_at, find_and_remove,
  internal_remove_observing,
}
use vss.Controller.VarHelper.Keys.{Field, count, client, metadata, field_key}
use vss.Controller.VarHelper.Frame.{
  get-set_field, get-set_by_id, get-delete_value_by_id, get-delete_value_node, same, within,
}
use vss.Controller.VarHelper.Observers.{listing, observers, same_entry}

-- The fields of the places from `j` on, `left` of them, and the same field of the next place.
abbrev moved : Field → ℕ → ℕ → Bool
moved count j left = false
moved (client i) j left = leb j i && ltb i (j + left)
moved (metadata i) j left = leb j i && ltb i (j + left)

abbrev next : Field → Field
next count = count
next (client i) = client (suc i)
next (metadata i) = metadata (suc i)

module _ {S : Type 0} (db : IStorage S) (name : Bytes) where
  open db use {set, get, delete_value}

  get-shift_step :
      (f : Field) (j : ℕ) (default : Bytes) (s : S)
      → get (field_key name f) default (shift_step db name j s) ≡ (
          if moved f j 1
          then get (field_key name (next f)) [] s
          else get (field_key name f) default s)
  unfolding shift_step list_entry
  get-shift_step count j default s = rw (
    get-set_by_id db name count,
    get-set_field db name count (metadata j),
    get-set_field db name count (client j),
  )
  get-shift_step (client i) j default s =
      rw
        (
          get-set_by_id db name (client i),
          get-set_field db name (client i) (metadata j),
          get-set_field db name (client i) (client j),
        )
        (ground arith)
  get-shift_step (metadata i) j default s =
      rw
        (
          get-set_by_id db name (metadata i),
          get-set_field db name (metadata i) (metadata j),
          get-set_field db name (metadata i) (client j),
        )
        (ground arith)

  -- After the entries j+1, …, j+left moved down, the places j, …, j+left-1 hold them.
  get-shift_left :
      (f : Field) (left j : ℕ) (default : Bytes) (s : S)
      → get (field_key name f) default (shift_left db name left j s) ≡ (
          if moved f j left
          then get (field_key name (next f)) [] s
          else get (field_key name f) default s)
  unfolding shift_left
  get-shift_left count zero j default s = refl
  get-shift_left (client i) zero j default s = ground arith
  get-shift_left (metadata i) zero j default s = ground arith
  get-shift_left count (suc left) j default s =
      get-shift_left count left (suc j) default (shift_step db name j s)
      ∙ get-shift_step count j default s
  get-shift_left (client i) (suc left) j default s =
      get-shift_left (client i) left (suc j) default (shift_step db name j s)
      ∙ rw (get-shift_step (client i) j default s, get-shift_step (client (suc i)) j [] s)
          (ground arith)
  get-shift_left (metadata i) (suc left) j default s =
      get-shift_left (metadata i) left (suc j) default (shift_step db name j s)
      ∙ rw (get-shift_step (metadata i) j default s, get-shift_step (metadata (suc i)) j [] s)
          (ground arith)

  get-remove_at :
      (f : Field) (n i : ℕ) (client_id meta default : Bytes) (s : S)
      → get (field_key name f) default (remove_at db name (suc n) i client_id meta s) ≡ (
          if same f count
          then itoa (pos n)
          else if within n f
          then default
          else if moved f i (n - i)
          then get (field_key name (next f)) [] s
          else get (field_key name f) default s)
  unfolding remove_at decr
  get-remove_at f n i client_id meta default s =
      let p : suc n - 1 ≡ n = omega arith in
      rw
        (
          get-delete_value_by_id db name f client_id meta,
          get-set_field db name f count,
          get-delete_value_node db name f (suc n - 1),
          get-shift_left f,
        )
        (rw p)

  entry_below :
      (n i j : ℕ) (client_id meta : Bytes) (s : S)
      → i ≤ n
      → j < i
      → list_entry db name (format j) (remove_at db name (suc n) i client_id meta s)
        ≡ list_entry db name (format j) s
  entry_below n i j client_id meta s le lt =
      same_entry db name j j _ s (get-remove_at (client j) n i client_id meta [] s ∙ ground arith)
        (get-remove_at (metadata j) n i client_id meta [] s ∙ ground arith)

  entry_above :
      (n i j : ℕ) (client_id meta : Bytes) (s : S)
      → i ≤ j
      → j < n
      → list_entry db name (format j) (remove_at db name (suc n) i client_id meta s)
        ≡ list_entry db name (format (suc j)) s
  entry_above n i j client_id meta s le lt =
      same_entry db name j (suc j) _ s
        (get-remove_at (client j) n i client_id meta [] s ∙ ground arith)
        (get-remove_at (metadata j) n i client_id meta [] s ∙ ground arith)

  list_count-remove_at :
      (n i : ℕ) (client_id meta : Bytes) (s : S)
      → n < int_limit
      → list_count db name (remove_at db name (suc n) i client_id meta s) ≡ pos n
  unfolding list_count
  list_count-remove_at n i client_id meta s h =
      ap get_int64 (get-remove_at count n i client_id meta (itoa (pos 0)) s)
      ∙ get_int64-itoa (pos n) h

  -- Where place `i` is the newest one that holds the observation, taking it out removes that entry.
  observers-remove_at :
      (n i : ℕ) (client_id meta : Bytes) (s : S)
      → let o : Observation = record { client_id = client_id; metadata = meta } in
        n < int_limit
        → i ≤ n
        → observation_eq (list_entry db name (format i) s) o ≡ true
        → ((j : ℕ) → i < j → j ≤ n → observation_eq (list_entry db name (format j) s) o ≡ false)
        → observers db name (remove_at db name (suc n) i client_id meta s)
          ≡ erase_first o (listing db name (suc n) s)
  unfolding observers rounds
  observers-remove_at n i client_id meta s fits le here above =
      rw (list_count-remove_at n i client_id meta s fits) (
        erase_first-newest_first _ _ _ n i le here above
          (λ j lt. entry_below n i j client_id meta s le lt)
          (λ j a b. entry_above n i j client_id meta s a b))

  observers-find_and_remove :
      (n i : ℕ) (client_id meta : Bytes) (s : S)
      → let o : Observation = record { client_id = client_id; metadata = meta } in
        list_count db name s ≡ pos (suc n)
        → n < int_limit
        → i ≤ suc n
        → ((j : ℕ) → i ≤ j → j ≤ n → observation_eq (list_entry db name (format j) s) o ≡ false)
        → observers db name (find_and_remove db name (suc n) i client_id meta s)
          ≡ erase_first o (observers db name s)
  unfolding find_and_remove
  observers-find_and_remove n zero client_id meta s h fits le above =
      unfold observers rounds in
      rw h (sym (erase_first_none _ _ (suc n) λ j lt. above j (omega arith) (omega arith)))
  observers-find_and_remove n (suc i) client_id meta s h fits le above =
      let o : Observation = record { client_id = client_id; metadata = meta } in
      let e = list_entry db name (format i) s in
      elim (Bool-cases (observation_eq e o)) [
        | inl here ↦ rw here (
            observers-remove_at n i client_id meta s fits (omega arith) here above
            ∙ (unfold observers rounds in rw h))
        | inr other ↦ rw other (
            observers-find_and_remove n i client_id meta s h fits (omega arith) λ j a b.
              elim (Bool-cases (i == j)) [
                | inl q ↦ let p : j ≡ i = ground arith in rw p other
                | inr q ↦ above j (ground arith) b
              ])
      ]

  -- Removing an observation takes its newest entry out of the observers' list, keeps all the others
  -- in their order, and leaves the list as it is if the observation is not there.
  pub observers-internal_remove_observing :
      (client_id meta : Bytes) (s : S)
      → observers db name (internal_remove_observing db name client_id meta s)
        ≡ erase_first (record { client_id = client_id; metadata = meta }) (observers db name s)
  unfolding internal_remove_observing
  observers-internal_remove_observing client_id meta s =
      go (list_count db name s) refl (unfold list_count in get_int64-IsInt _)
    where
      none_listed :
          rounds (list_count db name s) ≡ 0
          → observers db name (
              find_and_remove db name
                (rounds (list_count db name s))
                (rounds (list_count db name s))
                client_id
                meta
                s)
            ≡ erase_first (record { client_id = client_id; metadata = meta }) (observers db name s)
      none_listed e = rw e (unfold find_and_remove observers erase_first newest_first in rw e)

      go :
          (c : ℤ)
          → list_count db name s ≡ c
          → IsInt c
          → observers db name (
              find_and_remove db name
                (rounds (list_count db name s))
                (rounds (list_count db name s))
                client_id
                meta
                s)
            ≡ erase_first (record { client_id = client_id; metadata = meta }) (observers db name s)
      go (pos zero) h fits = none_listed (unfold rounds in rw h)
      go (pos (suc n)) h fits = rw h (
          unfold rounds in
          observers-find_and_remove n (suc n) client_id meta s h (omega arith) (omega arith)
            λ j a b. absurd (omega arith))
      go (negsuc n) h fits = none_listed (unfold rounds in rw h)
