-- ===== src/Server.antt =====
-- controller.go, `TheController` as the IController that the APIs are given, over any storage. The
-- notifications of SetVar and DelVar are goroutines of their own and are not run here.
pub mod Across
use vss.Prelude.{ℕ, Bytes, codes, List, [], ◌∷◌, ◌++◌, Bool, true, false, Option, none, some}
use vss.Prelude.Int.{ℤ, pos}
use vss.DynamicVar.{itoa}
use vss.Storage.Interface.{IStorage}
use vss.Controller.ClientHelper.{Api}
use vss.Controller.Observing.{client_connected}
use vss.Controller.Queries.{
  Fuel, Asked, answered, panicked, endless, set_var_query, get_vars_query, del_var_query,
  get_childs_query, lock_var_query, unlock_var_query, is_var_locked_query, observe_var_query,
  stop_observing_query,
}
use vss.Controller.Reading.{Done}
use vss.Controller.SetVar.{
  Conf, Outcome, SetError, empty_name, internal_name, key_too_long, value_too_big, word_too_long,
  is_locked_error,
}
use vss.Vstp.Commands.{IController}

-- The errors of setVar.
unfoldable pub set_error_text : Conf → SetError → Bytes
set_error_text conf empty_name = codes "variable name cannot be empty"
set_error_text conf internal_name =
    codes "variables started with underscore are for internal use only"
set_error_text conf key_too_long =
    codes "variable name exceeds maximum length of " ++ itoa conf.max_key_length
set_error_text conf value_too_big =
    codes "variable value exceeds maximum size of " ++ itoa conf.max_value_size
set_error_text conf word_too_long =
    codes "a part of the variable name exceeds maximum length of " ++ itoa conf.max_key_word_length
set_error_text conf is_locked_error = codes "variable is locked"

-- The texts of the other errors, for the query that failed.
pub record Texts : Type 0 where
  pub resolve_error : Bytes → Bytes
  pub delete_error : Bytes → Bytes
  pub lock_error : Bytes → Bytes

-- A server that panicked, or is caught in a query that does not end, answers nothing: what a call gives
-- then stands for no answer.
pub data Served (S : Type 0) : Type 0 where
  serving : S → Served S
  down : Served S

-- Go's `if err != nil`.
abbrev text_unless : Bool → Bytes → Option Bytes
text_unless true text = none
text_unless false text = some text

abbrev no_answer : {S : Type 0} → Option Bytes × Served S
no_answer = (some [], down)

module _ {S : Type 0} (db : IStorage S) (conf : Conf) (fuel : Fuel) (texts : Texts) where
  abbrev set_error : Option SetError → Option Bytes
  set_error none = none
  set_error (some e) = some (set_error_text conf e)

  abbrev set_answer : Bytes → S → Asked (Option (Outcome S)) → Option Bytes × Served S
  set_answer name s (answered none) = (some (texts.resolve_error name), serving s)
  set_answer name s (answered (some o)) = (set_error o.error, serving o.state)
  set_answer name s panicked = no_answer
  set_answer name s endless = no_answer

  abbrev delete_answer : Bytes → Asked (Done S) → Option Bytes × Served S
  delete_answer name (answered done) =
      (text_unless done.ok (texts.delete_error name), serving done.state)
  delete_answer name panicked = no_answer
  delete_answer name endless = no_answer

  abbrev get_answer :
      Bytes → Asked (Option (List (Bytes × Bytes))) → Option Bytes × List (Bytes × Bytes)
  get_answer [] a = (some (codes "variable name cannot be empty"), [])
  get_answer (c ∷ name) (answered none) = (some (texts.resolve_error (c ∷ name)), [])
  get_answer (c ∷ name) (answered (some values)) = (none, values)
  get_answer (c ∷ name) panicked = (some [], [])
  get_answer (c ∷ name) endless = (some [], [])

  abbrev childs_answer : Asked (List Bytes) → List Bytes
  childs_answer (answered childs) = childs
  childs_answer panicked = []
  childs_answer endless = []

  abbrev lock_answer : Bytes → Asked (Bool × S) → Option Bytes × Served S
  lock_answer name (answered (locked, s)) = (text_unless locked (texts.lock_error name), serving s)
  lock_answer name panicked = no_answer
  lock_answer name endless = no_answer

  abbrev unlock_answer : Bytes → Asked (Bool × S) → Option Bytes × Served S
  unlock_answer name (answered (resolved, s)) =
      (text_unless resolved (texts.resolve_error name), serving s)
  unlock_answer name panicked = no_answer
  unlock_answer name endless = no_answer

  abbrev locked_answer : Asked Bool → Bool
  locked_answer (answered locked) = locked
  locked_answer panicked = false
  locked_answer endless = false

  abbrev observe_answer : Asked S → Served S
  observe_answer (answered s) = serving s
  observe_answer panicked = down
  observe_answer endless = down

  abbrev observers_count : ℤ × S → ℤ × Served S
  observers_count (count, s) = (count, serving s)

  -- What a call does while the server serves.
  abbrev while_serving : {A : Type 0} → A → (S → A) → Served S → A
  while_serving lost run (serving s) = run s
  while_serving lost run down = lost

  module _ (api : Api) (now : ℤ) (pauses : ℕ → List (S → S)) where
    -- The methods of TheController. `pauses` is what others do while LockVar waits for so long.
    unfoldable pub the_controller : IController (Served S)
    the_controller = record {
      set_var = λ name value.
          while_serving no_answer
            (λ s. set_answer name s (set_var_query db conf fuel name value s));
      del_var = λ name.
          while_serving no_answer (λ s. delete_answer name (del_var_query db conf fuel name s));
      get_vars = λ name.
          while_serving (some [], []) (λ s. get_answer name (get_vars_query db conf fuel name s));
      get_childs_of_var =
          λ name. while_serving [] (λ s. childs_answer (get_childs_query db conf fuel name s));
      lock_var = λ name timeout.
          while_serving no_answer
            (λ s. lock_answer name (lock_var_query db conf fuel name (pauses timeout) s));
      unlock_var = λ name.
          while_serving no_answer (λ s. unlock_answer name (unlock_var_query db conf fuel name s));
      is_var_locked = λ name.
          while_serving false (λ s. locked_answer (is_var_locked_query db conf fuel name s));
      observe_var = λ name id meta.
          while_serving down
            (λ s. observe_answer (observe_var_query db conf fuel name id meta api now s));
      stop_observing_var = λ name id meta.
          while_serving down
            (λ s. observe_answer (stop_observing_query db conf fuel name id meta api now s));
      client_connected = λ id.
          while_serving (pos 0, down)
            (λ s. observers_count (
              client_connected db conf.allow_raw_db_access conf.max_time_waiting_client_second id
                api now s));
    }
