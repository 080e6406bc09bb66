-- ===== src/Controller/Observing/Listed.antt =====
-- controller.go, ObserveVar and StopObservingVar: the list of the observers of a variable. What they
-- write for the client stands below `internal.clients`, apart from the variables.
use vss.Prelude.{
  ℕ, zero, suc, str_eq, Bytes, codes, List, [], ◌∷◌, ◌++◌, ◌≡◌, refl, ap, ◌∙◌, false, Option, none,
  some, Bool-cases, inl, inr, ◌-◌,
}
use vss.Prelude.Int.{ℤ, pos, rounds}
use vss.Text.{split}
use vss.DynamicVar.{itoa, get_int64}
use vss.Storage.Keys.{key_path, dot, key_path-append}
use vss.Storage.Values.{path_eq, is_prefix}
use vss.Storage.Interface.{IStorage}
use vss.Controller.VarHelper.{list_count}
use vss.Controller.VarHelper.Keys.{
  Field, count, client, metadata, field_key, field_path, key_path-field,
}
use vss.Controller.VarHelper.Listing.{newest_first_ext}
use vss.Controller.VarHelper.Observers.{observers, same_entry}
use vss.Controller.ClientHelper.{
  Api, client_base, update_live_time, initialize, register_new_observation, register_at,
  unregister_observation, unregister_found, shift_vars,
}

abbrev client_key : Bytes → Bytes
client_key u = codes "internal.clients." ++ u

abbrev var_key : Bytes → Field → Bytes
var_key n f = field_key (codes "vars." ++ n) f

-- A key of a client and one of a variable's list lead neither to each other nor to one place.
key_path-client_key :
    (u : Bytes) → (p : List Bytes) × (key_path (client_key u) ≡ codes "internal" ∷ p)
key_path-client_key u = (
  key_path (codes "clients." ++ u),
  key_path-append (codes "internal") (codes "clients." ++ u) (λ e. cc) ∙ (unfold split in refl),
)

key_path-var_key :
    (n : Bytes) (f : Field) → (p : List Bytes) × (key_path (var_key n f) ≡ codes "vars" ∷ p)
key_path-var_key n f =
    (split dot n ++ field_path f, key_path-field (codes "vars." ++ n) f ∙ (unfold split in refl))

module _ {S : Type 0} (db : IStorage S) (n : Bytes) where
  open db use {set, get, delete_value}

  -- The list of the observers is the same, read field by field.
  pub Keeps : S → S → Type 0
  Keeps s t =
      (f : Field) (default : Bytes) → get (var_key n f) default t ≡ get (var_key n f) default s

  set-Keeps : (u v : Bytes) (s : S) → Keeps s (set (client_key u) v s)
  unfolding Keeps
  set-Keeps u v s f default =
      let (p, e) = key_path-var_key n f in
      let (q, h) = key_path-client_key u in
      db.get-set (var_key n f) (client_key u) v default s
      ∙ rw (e, h) (unfold path_eq is_prefix str_eq in refl)

  delete_value-Keeps : (u : Bytes) (s : S) → Keeps s (delete_value (client_key u) false s)
  unfolding Keeps
  delete_value-Keeps u s f default =
      let (p, e) = key_path-var_key n f in
      let (q, h) = key_path-client_key u in
      db.get-delete_value (var_key n f) (client_key u) default false s refl
      ∙ rw (e, h) (unfold path_eq is_prefix str_eq in refl)

  pub Keeps-both : (s t r : S) → Keeps s t → Keeps t r → Keeps s r
  unfolding Keeps
  Keeps-both s t r a b f default = b f default ∙ a f default

  Keeps-refl : (s : S) → Keeps s s
  unfolding Keeps
  Keeps-refl s f default = refl

  pub observers-Keeps :
      (s t : S)
      → Keeps s t
      → observers db (codes "vars." ++ n) t ≡ observers db (codes "vars." ++ n) s
  unfolding Keeps observers
  observers-Keeps s t k =
      let same : list_count db (codes "vars." ++ n) t ≡ list_count db (codes "vars." ++ n) s =
        unfold list_count in ap get_int64 (k count (itoa (pos 0))) in
      rw same (
        newest_first_ext (rounds (list_count db (codes "vars." ++ n) s)) (λ i lt.
          same_entry db (codes "vars." ++ n) i i t s (k (client i) []) (k (metadata i) [])))

  pub list_count-Keeps :
      (s t : S)
      → Keeps s t
      → list_count db (codes "vars." ++ n) t ≡ list_count db (codes "vars." ++ n) s
  unfolding Keeps list_count
  list_count-Keeps s t k = ap get_int64 (k count (itoa (pos 0)))

  module _ (client_id : Bytes) where
    pub live_kept : (now : ℤ) (s : S) → Keeps s (update_live_time db client_id now s)
    unfolding update_live_time
    live_kept now s = set-Keeps _ (itoa now) s

    pub initialize_kept :
        (api : Api) (now : ℤ) (s : S) → Keeps s (initialize db client_id (some api) now s)
    unfolding initialize
    initialize_kept api now s = elim (Bool-cases (db.has_value (client_base client_id) s)) [
      | inl e ↦ rw e (Keeps-both s _ _ (set-Keeps _ api.api_id s) (live_kept now _))
      | inr e ↦ rw e (
          Keeps-both s _ _ (set-Keeps _ _ s) (
            Keeps-both _ _ _ (set-Keeps _ client_id _) (
              Keeps-both _ _ _ (set-Keeps _ _ _)
                (Keeps-both _ _ _ (set-Keeps _ api.api_id _) (live_kept now _)))))
    ]

    pub register_kept :
        (var_name : Bytes) (now : ℤ) (s : S)
        → Keeps s (register_new_observation db client_id var_name now s)
    unfolding register_new_observation register_at
    register_kept var_name now s =
        Keeps-both s _ _ (live_kept now s)
          (Keeps-both _ _ _ (set-Keeps _ _ _) (set-Keeps _ (codes "vars." ++ var_name) _))

    shift_vars_kept : (left c : ℕ) (s : S) → Keeps s (shift_vars db client_id left c s)
    unfolding shift_vars
    shift_vars_kept zero c s = Keeps-refl s
    shift_vars_kept (suc left) c s =
        Keeps-both s _ _ (set-Keeps _ _ s) (shift_vars_kept left (suc c) _)

    unregister_found_kept :
        (found : Option ℕ) (curr : ℕ) (s : S) → Keeps s (unregister_found db client_id found curr s)
    unfolding unregister_found
    unregister_found_kept none curr s = Keeps-refl s
    unregister_found_kept (some idx) curr s =
        Keeps-both s _ _ (shift_vars_kept (curr - 1 - idx) idx s)
          (Keeps-both _ _ _ (delete_value-Keeps _ _) (set-Keeps _ _ _))

    pub unregister_kept :
        (var_name : Bytes) (now : ℤ) (s : S)
        → Keeps s (unregister_observation db client_id var_name now s)
    unfolding unregister_observation
    unregister_kept var_name now s =
        Keeps-both s _ _ (live_kept now s) (unregister_found_kept _ _ _)
