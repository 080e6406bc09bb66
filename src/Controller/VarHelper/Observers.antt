-- ===== src/Controller/VarHelper/Observers.antt =====
-- The observers' list as a list: what registering and removing an observation do to it.
use vss.Prelude.{
  ℕ, suc, ◌<◌, Bytes, List, [], ◌∷◌, ◌≡◌, refl, ap, ap₂, ◌∙◌, false, ◌==◌, if◌then◌else◌, arith,
}
use vss.Prelude.Int.{incr-pos, pos, incr, rounds, int_limit}
use vss.DynamicVar.{itoa, format, get_int64}
use vss.DynamicVar.RoundTrip.{get_int64-itoa}
use vss.Storage.Interface.{IStorage}
use vss.Controller.VarHelper.Listing.{newest_first, newest_first_ext}
use vss.Controller.VarHelper.{Observation, list_count, list_entry, register_observation}
use vss.Controller.VarHelper.Keys.{Field, count, client, metadata, field_key}
use vss.Controller.VarHelper.Frame.{get-set_field, get-set_by_id, same}

module _ {S : Type 0} (db : IStorage S) (name : Bytes) where
  open db use {set, get, delete_value}

  -- The entries at the places below `n`, the newest one first.
  abbrev pub listing : ℕ → S → List Observation
  listing n s = newest_first (λ i. list_entry db name (format i) s) n

  -- The observers' list, the newest one first.
  unfoldable pub observers : S → List Observation
  observers s = listing (rounds (list_count db name s)) s

  pub entry_of_gets :
      (i : ℕ) (s : S) (c m : Bytes)
      → get (field_key name (client i)) [] s ≡ c
      → get (field_key name (metadata i)) [] s ≡ m
      → list_entry db name (format i) s ≡ record { client_id = c; metadata = m }
  unfolding list_entry
  entry_of_gets i s c m p q = λ j. record { client_id = p j; metadata = q j }

  pub same_entry :
      (i j : ℕ) (s t : S)
      → get (field_key name (client i)) [] s ≡ get (field_key name (client j)) [] t
      → get (field_key name (metadata i)) [] s ≡ get (field_key name (metadata j)) [] t
      → list_entry db name (format i) s ≡ list_entry db name (format j) t
  unfolding list_entry
  same_entry i j s t p q = λ k. record { client_id = p k; metadata = q k }

  get-register_observation :
      (f : Field) (client_id meta default : Bytes) (n : ℕ) (s : S)
      → list_count db name s ≡ pos n
      → get (field_key name f) default (register_observation db name client_id meta s).1 ≡ (
          if same f count
          then itoa (incr (pos n))
          else if same f (metadata n)
          then meta
          else if same f (client n)
          then client_id
          else get (field_key name f) default s)
  unfolding register_observation itoa
  get-register_observation f client_id meta default n s h = rw (
    h,
    get-set_field db name f count,
    get-set_by_id db name f client_id meta,
    get-set_field db name f (metadata n),
    get-set_field db name f (client n),
  )

  -- The fields of an entry below the new one are as they were.
  below_new : (i n : ℕ) → i < n → (i == n) ≡ false
  below_new i n h = ground arith

  list_count-register :
      (client_id meta : Bytes) (n : ℕ) (s : S)
      → list_count db name s ≡ pos n
      → suc n < int_limit
      → list_count db name (register_observation db name client_id meta s).1 ≡ pos (suc n)
  list_count-register client_id meta n s h k =
      unfold list_count in
      (ap get_int64 (
          get-register_observation count client_id meta (itoa (pos 0)) n s (unfold list_count in h))
        ∙ ap (λ i. get_int64 (itoa i)) (incr-pos n k)
        ∙ get_int64-itoa (pos (suc n)) k)

  -- A new observation comes first in the list, which is otherwise the same.
  pub observers-register_observation :
      (client_id meta : Bytes) (n : ℕ) (s : S)
      → list_count db name s ≡ pos n
      → suc n < int_limit
      → observers (register_observation db name client_id meta s).1
        ≡ record { client_id = client_id; metadata = meta } ∷ observers s
  unfolding observers
  observers-register_observation client_id meta n s h k =
      rw (list_count-register client_id meta n s h k, h)
        (unfold newest_first rounds in ap₂ (λ e es. e ∷ es) newest (newest_first_ext n older))
    where
      s' : S
      s' = (register_observation db name client_id meta s).1

      newest : list_entry db name (format n) s' ≡ record { client_id = client_id; metadata = meta }
      newest =
          entry_of_gets n s' client_id meta
            (get-register_observation (client n) client_id meta [] n s h ∙ ground arith)
            (get-register_observation (metadata n) client_id meta [] n s h ∙ ground arith)

      older : (i : ℕ) → i < n → list_entry db name (format i) s' ≡ list_entry db name (format i) s
      older i lt =
          same_entry i i s' s
            (get-register_observation (client i) client_id meta [] n s h
              ∙ rw (below_new i n lt) refl)
            (get-register_observation (metadata i) client_id meta [] n s h
              ∙ rw (below_new i n lt) refl)
