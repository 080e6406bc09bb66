-- ===== src/Server/Across.antt =====
-- A variable that is set through one API and read through another, with the controller between them.
use vss.Prelude.{ℕ, Bytes, codes, List, ◌≡◌, false, none, is_nil}
use vss.Prelude.Int.{ℤ}
use vss.Text.{contains, contains_text}
use vss.Storage.Interface.{IStorage}
use vss.Controller.VarHelper.{set_controlled_var_name}
use vss.Controller.VarFlags.{is_locked}
use vss.Controller.ClientHelper.{Api}
use vss.Controller.SetVar.{Conf, check_var}
use vss.Controller.SetVar.Outcomes.{filtered}
use vss.Controller.Queries.{Fuel}
use vss.Vstp.Clients.{Clients}
use vss.Vstp.Commands.{IController}
use vss.Server.{Served, Texts, the_controller}

-- A value that SetVar takes under a name: the name has no increment, no wildcard and valid characters
-- only, name and value pass the checks of setVar, the value is not empty and the variable not locked.
pub record IsSettable {S : Type 0} (db : IStorage S) (conf : Conf) (name value : Bytes) (s : S)
    : Type 0 where
  pub no_increment : contains_text name (codes "${i") ≡ false
  pub no_wildcard : contains name b'*' ≡ false
  pub valid : filtered name ≡ name
  pub checked : check_var conf name value ≡ none
  pub valued : is_nil value ≡ false
  pub unlocked : is_locked db (set_controlled_var_name conf.allow_raw_db_access name) s ≡ false

module _ {S : Type 0} (db : IStorage S) (conf : Conf) (fuel : Fuel) (texts : Texts) (api : Api)
    (now : ℤ) (pauses : ℕ → List (S → S)) where
  abbrev ctrl : IController (Served S)
  ctrl = the_controller db conf fuel texts api now pauses
