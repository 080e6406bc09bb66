-- ===== src/Startup/Limits.antt =====
-- main.go, initConfigurations: the bounds of the values that the server is configured with.
use vss.Prelude.{
  ℕ, zero, suc, ◌≤◌, Bytes, codes, List, [], ◌∷◌, ◌++◌, ◌≡◌, refl, Bool, false, Option, none, some,
  str_eq, arith, ◌||◌,
}
use vss.Prelude.Int.{ℤ, pos, negsuc, le_int}
use vss.Prelude.Dict.{find, store}
use vss.DynamicVar.{get_int64, atoi, int_or_zero, digits_value, is_digit}
use vss.Confs.{
  Confs, ConfItem, ConfOption, new_conf_item, create_config, apply_place_holders, apply_options,
  apply_option, replace_all, add_place_holders, store_all,
}
use vss.Confs
use vss.Confs.Valid.{
  Checks, Fits, create_config-Fits, create_config_kept, create_config_absent, create_config_found,
  create_config-place_holders,
}
use vss.Text.{has_prefix}
use vss.Startup.{
  Host, all_entries, create_all, config_value, init_configurations, started_confs, place_holders_of,
}
use vss.Startup.Items.{Entry, port_error, positive_error, within_int, is_port, checked}

create_all_kept :
    (entries : List Entry) (k : Bytes) (confs : Confs) (c : ConfItem)
    → find str_eq k confs.items ≡ some c
    → find str_eq k (create_all entries confs).items ≡ some c
unfolding create_all
create_all_kept [] k confs c h = h
create_all_kept ((name, options) ∷ entries) k confs c h =
    create_all_kept entries k (create_config name options confs).2 c
      (create_config_kept name k options confs c h)

has_entry : Bytes → List Entry → Bool
has_entry name [] = false
has_entry name ((other, options) ∷ entries) = str_eq other name || has_entry name entries

-- The item of an entry, among entries whose names are others, fits.
create_all-Fits :
    (error : Bytes → Option Bytes) (d name : Bytes) (options : List ConfOption)
    (before behind : List Entry) (confs : Confs)
    → has_entry name before ≡ false
    → find str_eq name confs.items ≡ none
    → Checks error d (new_conf_item name options)
    → error (apply_place_holders confs.place_holders d) ≡ none
    → (c : ConfItem) × (find str_eq name
          (create_all (before ++ (name, options) ∷ behind) confs).items
        ≡ some c)
      × Fits error c
unfolding create_all has_entry
create_all-Fits error d name options [] behind confs others absent h fits = (
  (create_config name options confs).0,
  create_all_kept behind name (create_config name options confs).2 _
      (create_config_found name options confs absent),
  create_config-Fits error d name options confs absent h fits,
)
create_all-Fits error d name options ((other, opts) ∷ before) behind confs others absent h fits =
    let q : str_eq other name ≡ false = ground arith in
    let qs : has_entry name before ≡ false = ground arith in
    create_all-Fits error d name options before behind (create_config other opts confs).2 qs
      (create_config_absent other name opts confs q absent) h
      (rw (create_config-place_holders other opts confs) fits)

value_unmapped : (c : ConfItem) → c.item.value_map ≡ [] → Confs.value c ≡ c.item.the_value
unfolding Confs.value find
value_unmapped c m = rw m refl

config_value-Fits :
    (error : Bytes → Option Bytes) (name : Bytes) (confs : Confs) (c : ConfItem)
    → find str_eq name confs.items ≡ some c
    → Fits error c
    → error (config_value name confs) ≡ none
unfolding config_value create_config
config_value-Fits error name confs c e (ok, m) = rw (e, value_unmapped c m) ok

-- A number that is read, and lies in a range.
abbrev pub IsWithin : ℕ → ℕ → Bytes → Type 0
IsWithin low high v = (n : ℕ) × (get_int64 v ≡ pos n) × (low ≤ n) × (n ≤ high)

abbrev pub IsPositive : Bytes → Type 0
IsPositive v = (n : ℕ) × (get_int64 v ≡ pos n) × (1 ≤ n)

port_error-IsWithin : (v : Bytes) → port_error v ≡ none → IsWithin 1 65535 v
unfolding port_error get_int64 le_int
port_error-IsWithin v h = go (atoi v) h
  where
    go :
        (o : Option ℤ)
        → within_int is_port v (codes "a valid TCP port number (1-65535)") o ≡ none
        → (n : ℕ) × (int_or_zero o ≡ pos n) × (1 ≤ n) × (n ≤ 65535)
    go none h = cc
    go (some (pos n)) h = (n, refl, ground arith, ground arith)
    go (some (negsuc n)) h = cc

positive_error-IsPositive : (v : Bytes) → positive_error v ≡ none → IsPositive v
unfolding positive_error get_int64 le_int
positive_error-IsPositive v h = go (atoi v) h
  where
    go :
        (o : Option ℤ)
        → within_int (λ i. le_int (pos 1) i) v (codes "a valid positive integer") o ≡ none
        → (n : ℕ) × (int_or_zero o ≡ pos n) × (1 ≤ n)
    go none h = cc
    go (some (pos n)) h = (n, refl, ground arith)
    go (some (negsuc n)) h = cc

abbrev first : ℕ → List Entry → List Entry
first zero es = []
first (suc n) [] = []
first (suc n) (e ∷ es) = e ∷ first n es

abbrev after : ℕ → List Entry → List Entry
after zero es = es
after (suc n) [] = []
after (suc n) (e ∷ es) = after n es

-- The value of an entry that is checked, if its default value passes the check.
checked_value :
    (error : Bytes → Option Bytes) (d name : Bytes) (possible_names : List Bytes)
    (before behind : List Entry) (host : Host)
    → has_entry name before ≡ false
    → error (apply_place_holders (place_holders_of host) d) ≡ none
    → error (
        config_value name (
          create_all (before ++ checked name possible_names d error ∷ behind) (started_confs host)))
      ≡ none
unfolding new_conf_item apply_options apply_option add_place_holders store_all store find str_eq
checked_value error d name possible_names before behind host others fits =
    let (c, e, ok) =
      create_all-Fits error d name _ before behind (started_confs host) others refl
        (refl, refl, refl) fits in
    config_value-Fits error name _ c e ok

-- The default values pass their checks, wherever the directories are.
defaults_pass :
    (host : Host)
    → (port_error (apply_place_holders (place_holders_of host) (codes "5024")) ≡ none)
      × (port_error (apply_place_holders (place_holders_of host) (codes "5032")) ≡ none)
      × (positive_error (apply_place_holders (place_holders_of host) (codes "255")) ≡ none)
      × (positive_error (apply_place_holders (place_holders_of host) (codes "64")) ≡ none)
      × (positive_error (apply_place_holders (place_holders_of host) (codes "1048576")) ≡ none)
unfolding apply_place_holders replace_all has_prefix port_error positive_error atoi digits_value
    is_digit le_int
defaults_pass host = (refl, refl, refl, refl, refl)

-- Whatever the arguments, the environment and the file say, the two ports that the server opens are
-- ports, and the limits of a key, of its words and of a value are at least 1.
pub init_configurations-IsWithin :
    (atoi_error : Bytes → Bytes) (host : Host)
    → IsWithin 1 65535 (config_value (codes "httpApiPort") (init_configurations atoi_error host))
      × IsWithin 1 65535 (config_value (codes "vstpApiPort") (init_configurations atoi_error host))
      × IsPositive (config_value (codes "maxKeyLength") (init_configurations atoi_error host))
      × IsPositive (config_value (codes "maxKeyWordLength") (init_configurations atoi_error host))
      × IsPositive (config_value (codes "maxValueSize") (init_configurations atoi_error host))
unfolding init_configurations has_entry str_eq
init_configurations-IsWithin atoi_error host =
    let all = all_entries atoi_error in
    let (http, vstp, key, word, size) = defaults_pass host in
    (
      port_error-IsWithin _ (
          checked_value port_error (codes "5024") (codes "httpApiPort") _ (first 8 all)
            (after 9 all) host refl http),
      port_error-IsWithin _ (
          checked_value port_error (codes "5032") (codes "vstpApiPort") _ (first 13 all)
            (after 14 all) host refl vstp),
      positive_error-IsPositive _ (
          checked_value positive_error (codes "255") (codes "maxKeyLength") _ (first 15 all)
            (after 16 all) host refl key),
      positive_error-IsPositive _ (
          checked_value positive_error (codes "64") (codes "maxKeyWordLength") _ (first 16 all)
            (after 17 all) host refl word),
      positive_error-IsPositive _ (
          checked_value positive_error (codes "1048576") (codes "maxValueSize") _ (first 17 all)
            (after 18 all) host refl size),
    )
