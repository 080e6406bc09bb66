-- ===== src/Controller/Queries/RoundTrip.antt =====
-- controller.go, SetVar and GetVars together.
use vss.Prelude.{
  ℕ, zero, suc, ◌<◌, Bytes, codes, [], ◌∷◌, ◌≡◌, refl, Bool, true, false, none, some, arith, is_nil,
  Bool-cases, inl, inr,
}
use vss.Text.{contains, contains_text, cut_lacking, has_prefix}
use vss.Storage.Interface.{IStorage}
use vss.Controller.VarHelper.{set_controlled_var_name}
use vss.Controller.VarFlags.{is_locked, set_value}
use vss.Controller.SetVar.{Conf, Outcome, set_var, set_vars, check_var}
use vss.Controller.SetVar.Outcomes.{filtered, get_value-set_value}
use vss.Controller.Reading.{get_var, get_vars}
use vss.Controller.Names.{names, resolve_var_names, resolve_wild_cards, for_each}
use vss.Controller.Names.Increments.{resolve_increment_instructions_none}
use vss.Controller.Queries.{Fuel, answered, ask, set_var_query, get_vars_query}

module _ {S : Type 0} (db : IStorage S) where
  -- A name without an increment and without a wildcard is resolved to itself.
  pub resolve_var_names_plain :
      (raw : Bool) (increments rounds stars depth : ℕ) (name : Bytes) (s : S)
      → 0 < increments
      → 0 < stars
      → contains_text name (codes "${i") ≡ false
      → contains name b'*' ≡ false
      → resolve_var_names db raw increments rounds stars depth name s ≡ names (name ∷ [])
  unfolding resolve_var_names resolve_wild_cards for_each
  resolve_var_names_plain raw zero rounds stars depth name s p q e h = absurd (omega arith)
  resolve_var_names_plain raw (suc i) rounds zero depth name s p q e h = absurd (omega arith)
  resolve_var_names_plain raw (suc i) rounds (suc stars) depth name s p q e h =
      rw (resolve_increment_instructions_none i rounds name e, cut_lacking b'*' name h) refl

  controlled-contains :
      (raw : Bool) (name : Bytes)
      → contains name b'*' ≡ false
      → contains (set_controlled_var_name raw name) b'*' ≡ false
  unfolding set_controlled_var_name
  controlled-contains true name h = h
  controlled-contains false name h = elim (Bool-cases (has_prefix name (codes "vars."))) [
    | inl e ↦ rw e h
    | inr e ↦ rw e (unfold contains in h)
  ]

  pub check_var-ne-nil :
      (conf : Conf) (name value : Bytes) → check_var conf name value ≡ none → is_nil name ≡ false
  unfolding check_var
  check_var-ne-nil conf [] value h = cc
  check_var-ne-nil conf (c ∷ name) value h = refl

  module _ (conf : Conf) (fuel : Fuel) where
    abbrev full : Bytes → Bytes
    full name = set_controlled_var_name conf.allow_raw_db_access name

    abbrev written : Bytes → Bytes → S → Outcome S
    written name value s = record {
      error = none;
      state = set_value db (full name) value s;
      notified = (name, value) ∷ [];
    }

    set_vars-written :
        (name value : Bytes) (s : S)
        → filtered name ≡ name
        → check_var conf name value ≡ none
        → is_locked db (full name) s ≡ false
        → set_vars db conf (name ∷ []) value s ≡ written name value s
    unfolding set_vars set_var
    set_vars-written name value s f c l = rw (f, c, l) refl

    get_vars-written :
        (name value : Bytes) (s : S)
        → contains name b'*' ≡ false
        → is_nil value ≡ false
        → get_vars db conf.allow_raw_db_access (name ∷ []) (set_value db (full name) value s)
          ≡ (name, value) ∷ []
    unfolding get_vars get_var
    get_vars-written name value s h v =
        rw (get_value-set_value db conf (full name) value s (controlled-contains _ name h), v) refl

    -- What SetVar wrote, GetVars reads.
    pub get_vars_query-set_var_query :
        (name value : Bytes) (s : S)
        → 0 < fuel.increments
        → 0 < fuel.stars
        → contains_text name (codes "${i") ≡ false
        → contains name b'*' ≡ false
        → filtered name ≡ name
        → check_var conf name value ≡ none
        → is_nil value ≡ false
        → is_locked db (set_controlled_var_name conf.allow_raw_db_access name) s ≡ false
        → (o : Outcome S) × (set_var_query db conf fuel name value s ≡ answered (some o))
          × (o.error ≡ none)
          × (get_vars_query db conf fuel name o.state ≡ answered (some ((name, value) ∷ [])))
    unfolding set_var_query get_vars_query ask
    get_vars_query-set_var_query name value s p q e h f c v l =
        let plain =
          resolve_var_names_plain conf.allow_raw_db_access fuel.increments fuel.rounds fuel.stars
            fuel.depth name in
        (
          written name value s,
          rw (plain s p q e h, set_vars-written name value s f c l) refl,
          refl,
          rw
              (
                check_var-ne-nil conf name value c,
                plain (set_value db (full name) value s) p q e h,
                get_vars-written name value s h v,
              )
              refl,
        )
