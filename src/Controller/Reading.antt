-- ===== src/Controller/Reading.antt =====
-- controller.go, `TheController`: reading, deleting and locking variables, over the names that a query
-- resolves to. Each name is one run of getVar, delVar, lockVar, unlockVar or isVarLocked.
pub mod Deleting
use vss.Prelude.{
  Bytes, codes, List, [], ◌∷◌, ◌++◌, Bool, true, false, ◌||◌, str_eq, if◌then◌else◌, is_nil, Option,
  none, some,
}
use vss.Storage.Interface.{IStorage}
use vss.Controller.VarHelper.{set_controlled_var_name}
use vss.Controller.VarFlags.{get_value, delete_value, get_child_names, lock, unlock, is_locked}

-- What a call that may fail leaves; an error is `false`.
pub record Done (S : Type 0) : Type 0 where
  pub ok : Bool
  pub state : S
  pub notified : List (Bytes × Bytes)

-- A parent's name and a child's.
abbrev pub full_name : Bytes → Bytes → Bytes
full_name [] ch = ch
full_name (c ∷ name) ch = (c ∷ name) ++ b'.' ∷ ch

module _ {S : Type 0} (db : IStorage S) (allow_raw_db_access : Bool) where
  abbrev pub controlled : Bytes → Bytes
  controlled name = set_controlled_var_name allow_raw_db_access name

  -- getVar: a variable without a value gives an empty tuple.
  unfoldable pub get_var : Bytes → S → Option (Bytes × Bytes)
  get_var name s =
      let dv = get_value db (controlled name) s in if is_nil dv then none else some (name, dv)

  abbrev add_value : Option (Bytes × Bytes) → List (Bytes × Bytes) → List (Bytes × Bytes)
  add_value none rest = rest
  add_value (some v) rest = v ∷ rest

  -- The loop of GetVars.
  unfoldable pub get_vars : List Bytes → S → List (Bytes × Bytes)
  get_vars [] s = []
  get_vars (vname ∷ vnames) s = add_value (get_var vname s) (get_vars vnames s)

  -- The loop of delVar over the variables that it read.
  unfoldable pub delete_each : List (Bytes × Bytes) → S → S
  delete_each [] s = s
  delete_each ((name, dv) ∷ vals) s = delete_each vals (delete_value db (controlled name) s)

  abbrev told_of : List (Bytes × Bytes) → List (Bytes × Bytes)
  told_of [] = []
  told_of ((name, dv) ∷ vals) = (name, []) ∷ told_of vals

  -- delVar, for the names that its own query resolves to.
  unfoldable pub del_var : List Bytes → S → Done S
  del_var vnames s =
      let vals = get_vars vnames s in
      if is_nil vals
      then record { ok = false; state = s; notified = [] }
      else record { ok = true; state = delete_each vals s; notified = told_of vals }

  -- delVar of a name that resolves to itself; GetVars refuses an empty name. GetVars resolves the name
  -- a second time, which is left out here: a name without an increment and a wildcard stays as it is.
  unfoldable pub del_one : Bytes → S → Done S
  del_one vname s =
      if is_nil vname
      then record { ok = false; state = s; notified = [] }
      else del_var (vname ∷ []) s

  abbrev stop_or_go_on : Bool → Done S → Done S → Done S
  stop_or_go_on false first rest = first
  stop_or_go_on true first rest = record {
    ok = rest.ok;
    state = rest.state;
    notified = first.notified ++ rest.notified;
  }

  -- The loop of DelVar over the resolved names, which hold no wildcard.
  unfoldable pub del_vars : List Bytes → S → Done S
  del_vars [] s = record { ok = true; state = s; notified = [] }
  del_vars (vname ∷ vnames) s =
      let first = del_one vname s in
      let rest = del_vars vnames first.state in stop_or_go_on first.ok first rest

  -- GetChildsOfVar
  unfoldable pub get_childs_of_vars : List Bytes → S → List Bytes
  get_childs_of_vars [] s = []
  get_childs_of_vars (vname ∷ vnames) s =
      get_child_names db (controlled vname) allow_raw_db_access s ++ get_childs_of_vars vnames s

  -- LockVar; `pauses` is what others do while each variable is waited for.
  unfoldable pub lock_vars : List Bytes → List (S → S) → S → Bool × S
  lock_vars [] pauses s = (true, s)
  lock_vars (vname ∷ vnames) pauses s =
      let first = lock db (controlled vname) pauses s in
      let rest = lock_vars vnames pauses first.1 in if first.0 then rest else first

  -- UnlockVar
  unfoldable pub unlock_vars : List Bytes → S → S
  unlock_vars [] s = s
  unlock_vars (vname ∷ vnames) s = unlock_vars vnames (unlock db (controlled vname) s)

  -- IsVarLocked
  unfoldable pub any_var_locked : List Bytes → S → Bool
  any_var_locked [] s = false
  any_var_locked (vname ∷ vnames) s = is_locked db (controlled vname) s || any_var_locked vnames s

  -- The loop of getVarInternal over the child names.
  unfoldable pub read_childs : Bytes → List Bytes → S → List (List Bytes)
  read_childs name [] s = []
  read_childs name (ch ∷ childs) s =
      let full = full_name name ch in
      (full ∷ get_value db (controlled full) s ∷ []) ∷ read_childs name childs s

  -- getVarInternal: the variable, if it has a value, and each of its children.
  unfoldable pub get_var_internal : Bytes → S → List (List Bytes)
  get_var_internal name s =
      let dv = get_value db (controlled name) s in
      let childs =
        read_childs name (get_child_names db (controlled name) allow_raw_db_access s) s in
      if is_nil dv then childs else (name ∷ dv ∷ []) ∷ childs
