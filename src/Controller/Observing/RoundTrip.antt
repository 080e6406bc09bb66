-- ===== src/Controller/Observing/RoundTrip.antt =====
-- controller.go, ObserveVar and StopObservingVar: the list of the observers, there and back.
use vss.Prelude.{
  ℕ, suc, ◌<◌, str_eq_refl, Bytes, codes, List, [], ◌∷◌, ◌++◌, ◌≡◌, refl, sym, subst, ap, ◌∙◌, true,
  false, some, Bool-cases, inl, inr, arith,
}
use vss.Prelude.Int.{ℤ, pos, int_limit}
use vss.Text.{has_prefix}
use vss.Storage.Interface.{IStorage}
use vss.Controller.VarHelper.{
  Observation, set_controlled_var_name, list_count, register_observation, is_client_observing,
}
use vss.Controller.VarHelper.Listing.{erase_first}
use vss.Controller.VarHelper.Observers.{observers, observers-register_observation}
use vss.Controller.VarHelper.Removal.{observers-internal_remove_observing}
use vss.Controller.ClientHelper.{
  Api, initialize, notify, register_new_observation, update_live_time,
}
use vss.Controller.Observing.{observe_var, stop_observing_var, send}
use vss.Controller.Observing.Listed.{
  Keeps-both, observers-Keeps, list_count-Keeps, live_kept, initialize_kept, register_kept,
  unregister_kept,
}

has_prefix_parts : (s p : Bytes) → has_prefix s p ≡ true → (t : Bytes) × (s ≡ p ++ t)
unfolding has_prefix
has_prefix_parts s [] h = (s, refl)
has_prefix_parts [] (c ∷ p) h = cc
has_prefix_parts (d ∷ s) (c ∷ p) h =
    let (t, e) = has_prefix_parts s p (ground arith) in (t, ground (arith, e))

-- Without raw access a variable has its name below `vars`.
controlled_below :
    (name : Bytes) → (n : Bytes) × (set_controlled_var_name false name ≡ codes "vars." ++ n)
unfolding set_controlled_var_name
controlled_below name = elim (Bool-cases (has_prefix name (codes "vars."))) [
  | inl e ↦ let (t, h) = has_prefix_parts name (codes "vars.") e in (t, rw e h)
  | inr e ↦ (name, rw e refl)
]

erase_first-head : (o : Observation) (l : List Observation) → erase_first o (o ∷ l) ≡ l
unfolding erase_first
erase_first-head o l = rw (str_eq_refl o.client_id, str_eq_refl o.metadata) refl

module _ {S : Type 0} (db : IStorage S) (max_time : ℤ) (client_id meta : Bytes) (api : Api)
    (now : ℤ) where
  abbrev observed_by : Observation
  observed_by = record { client_id = client_id; metadata = meta }

  -- ObserveVar with a client that is there, at the storage that it leaves.
  observed_state : Bytes → Bytes → S → S
  observed_state key var_name s = update_live_time db client_id now (
      register_new_observation db client_id var_name now
        (register_observation db key client_id meta (initialize db client_id (some api) now s)).1)

  observe_var-live :
      (var_name : Bytes) (s : S)
      → is_client_observing db (set_controlled_var_name false var_name) client_id meta s ≡ false
      → ((told : List (List Bytes)) → api.notify_client client_id told ≡ true)
      → observe_var db false max_time var_name client_id meta api now s
        ≡ observed_state (set_controlled_var_name false var_name) var_name s
  unfolding observe_var send notify observed_state
  observe_var-live var_name s fresh live = rw (fresh, live) refl

  observers-observed_state :
      (n var_name : Bytes) (k : ℕ) (s : S)
      → list_count db (codes "vars." ++ n) s ≡ pos k
      → suc k < int_limit
      → observers db (codes "vars." ++ n) (observed_state (codes "vars." ++ n) var_name s)
        ≡ observed_by ∷ observers db (codes "vars." ++ n) s
  unfolding observed_state
  observers-observed_state n var_name k s h room =
      observers-Keeps db n _ _ (
        Keeps-both db n _ _ _ (register_kept db n client_id var_name now _)
          (live_kept db n client_id now _))
      ∙ observers-register_observation db (codes "vars." ++ n) client_id meta k
          (initialize db client_id (some api) now s)
          (list_count-Keeps db n s _ (initialize_kept db n client_id api now s) ∙ h) room
      ∙ ap (λ l. observed_by ∷ l)
          (observers-Keeps db n s _ (initialize_kept db n client_id api now s))

  observers-stopped :
      (n var_name : Bytes) (s : S)
      → set_controlled_var_name false var_name ≡ codes "vars." ++ n
      → observers db
          (codes "vars." ++ n)
          (stop_observing_var db false max_time var_name client_id meta api now s)
        ≡ erase_first observed_by (observers db (codes "vars." ++ n) s)
  unfolding stop_observing_var
  observers-stopped n var_name s e = rw e (
      observers-Keeps db n _ _ (
        Keeps-both db n _ _ _ (initialize_kept db n client_id api now _)
          (unregister_kept db n client_id var_name now _))
      ∙ observers-internal_remove_observing db (codes "vars." ++ n) client_id meta s)

  -- Without raw access, for a client that is there and does not observe the variable with this metadata
  -- yet, and a count of observers that has room for one more: after ObserveVar the list of the
  -- observers, the newest one first, is that of before with this observation in front of it, and after
  -- StopObservingVar it is that of before, whatever storage holds it.
  pub observers-stop_observing_var :
      (var_name : Bytes) (k : ℕ) (s : S)
      → is_client_observing db (set_controlled_var_name false var_name) client_id meta s ≡ false
      → ((told : List (List Bytes)) → api.notify_client client_id told ≡ true)
      → list_count db (set_controlled_var_name false var_name) s ≡ pos k
      → suc k < int_limit
      → (let key = set_controlled_var_name false var_name in
          let observed = observe_var db false max_time var_name client_id meta api now s in
          (observers db key observed ≡ observed_by ∷ observers db key s)
          × (observers db key
                (stop_observing_var db false max_time var_name client_id meta api now observed)
              ≡ observers db key s))
  observers-stop_observing_var var_name k s fresh live h room =
      let (n, e) = controlled_below var_name in
      let there =
        ap (observers db (set_controlled_var_name false var_name))
          (observe_var-live var_name s fresh live)
        ∙ rw e (observers-observed_state n var_name k s (rw e at h) room) in
      (
        there,
        subst
              (λ key.
                observers db key (
                  stop_observing_var db false max_time var_name client_id meta api now
                    (observe_var db false max_time var_name client_id meta api now s))
                ≡ erase_first observed_by (
                    observers db key
                      (observe_var db false max_time var_name client_id meta api now s)))
              (sym e) (observers-stopped n var_name _ e)
            ∙ ap (erase_first observed_by) there
            ∙ erase_first-head observed_by _,
      )
