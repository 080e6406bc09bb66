-- ===== src/Controller/SetVar.antt =====
-- controller.go, `TheController`: setting one variable (setVar), and SetVar over the resolved names.
pub mod Allowed
pub mod Exact
pub mod Outcomes
use vss.Prelude.{
  ℕ, Bytes, codes, List, [], ◌∷◌, ◌++◌, ◌*◌, ◌≡◌, refl, Bool, true, false, ◌&&◌, ◌||◌, not, ◌==◌,
  if◌then◌else◌, is_nil, length, Option, none, some,
}
use vss.Prelude.Int.{ℤ, pos, le_int}
use vss.Text.{contains, split}
use vss.DynamicVar.{get_int64, get_bool}
use vss.Storage.Interface.{IStorage}
use vss.Controller.VarHelper.{set_controlled_var_name}
use vss.Controller.VarFlags.{is_locked, set_value}

-- The part of TheController that its configuration decides.
pub record Conf : Type 0 where
  pub max_time_waiting_client_second : ℤ
  pub max_key_length : ℤ
  pub max_key_word_length : ℤ
  pub max_value_size : ℤ
  pub allow_raw_db_access : Bool

-- NewController, from the texts of its configuration.
unfoldable pub new_controller : Bytes → Bytes → Bytes → Bytes → Bytes → Conf
new_controller max_time max_key max_word max_value raw = record {
  max_time_waiting_client_second =
      if le_int (get_int64 max_time) (pos 0) then pos (12 * 60 * 60) else get_int64 max_time;
  max_key_length = get_int64 max_key;
  max_key_word_length = get_int64 max_word;
  max_value_size = get_int64 max_value;
  allow_raw_db_access = get_bool raw;
}

abbrev pub valid_chars : Bytes
valid_chars = codes "abcdefghijklmnopqrstuvwxyzABCDEFGHIJKLMNOPQRSTUVWXYZ0123456789._/\\,.-*"

-- misc.GetOnly, for valid characters that are ASCII.
unfoldable pub get_only : Bytes → Bytes → Bytes
get_only [] valid = []
get_only (c ∷ source) valid =
    let result = get_only source valid in if contains valid c then c ∷ result else result

unfoldable pub contains_underscore_dot : Bytes → Bool
contains_underscore_dot [] = false
contains_underscore_dot (a ∷ []) = false
contains_underscore_dot (a ∷ b ∷ s) = (a == b'.' && b == b'_') || contains_underscore_dot (b ∷ s)

abbrev pub starts_with_underscore : Bytes → Bool
starts_with_underscore [] = false
starts_with_underscore (c ∷ s) = c == b'_'

-- len(p) > limit
abbrev pub longer : Bytes → ℤ → Bool
longer p limit = not (le_int (pos (length p)) limit)

unfoldable pub any_longer : List Bytes → ℤ → Bool
any_longer [] limit = false
any_longer (p ∷ parts) limit = longer p limit || any_longer parts limit

pub data SetError : Type 0 where
  empty_name internal_name key_too_long value_too_big word_too_long is_locked_error : SetError

-- The checks that setVar makes before it looks at the lock; `name` is already filtered.
unfoldable pub check_var : Conf → Bytes → Bytes → Option SetError
check_var conf name value =
    if is_nil name
    then some empty_name
    else if not conf.allow_raw_db_access && starts_with_underscore name
        || contains_underscore_dot name
    then some internal_name
    else if longer name conf.max_key_length
    then some key_too_long
    else if longer value conf.max_value_size
    then some value_too_big
    else if not (le_int conf.max_key_word_length (pos 0))
        && any_longer (split b'.' name) conf.max_key_word_length
    then some word_too_long
    else none

-- What a call leaves: its error, if any, the storage, and the changes that observers are told of.
pub record Outcome (S : Type 0) : Type 0 where
  pub error : Option SetError
  pub state : S
  pub notified : List (Bytes × Bytes)

module _ {S : Type 0} (db : IStorage S) (conf : Conf) where
  abbrev pub controlled : Bytes → Bytes
  controlled name = set_controlled_var_name conf.allow_raw_db_access name

  abbrev write_unlocked : Bytes → Bytes → S → Outcome S
  write_unlocked name value s =
      if is_locked db (controlled name) s
      then record { error = some is_locked_error; state = s; notified = [] }
      else record {
        error = none;
        state = set_value db (controlled name) value s;
        notified = (name, value) ∷ [];
      }

  abbrev after_checks : Option SetError → Bytes → Bytes → S → Outcome S
  after_checks (some e) name value s = record { error = some e; state = s; notified = [] }
  after_checks none name value s = write_unlocked name value s

  unfoldable pub set_var : Bytes → Bytes → S → Outcome S
  set_var given value s =
      let name = get_only given valid_chars in after_checks (check_var conf name value) name value s

  -- After one name: an error ends the loop, and what was written stays.
  abbrev then_rest : Outcome S → Outcome S → Outcome S
  then_rest first rest = record {
    error = rest.error;
    state = rest.state;
    notified = first.notified ++ rest.notified;
  }

  abbrev stop_at_error : Option SetError → Outcome S → Outcome S → Outcome S
  stop_at_error (some e) first rest = first
  stop_at_error none first rest = then_rest first rest

  -- The loop of SetVar over the resolved names.
  unfoldable pub set_vars : List Bytes → Bytes → S → Outcome S
  set_vars [] value s = record { error = none; state = s; notified = [] }
  set_vars (name ∷ names) value s =
      let first = set_var name value s in
      let rest = set_vars names value first.state in stop_at_error first.error first rest
