-- ===== src/Controller/VarFlags.antt =====
-- controller_varhelper.go, `VarHelper`: the variable's value, its flags and its lock.
pub mod Locks
use vss.Prelude.{
  ℕ, suc, Bytes, codes, List, [], ◌∷◌, ◌++◌, ◌≡◌, refl, Bool, true, false, ◌&&◌, ◌||◌, not, str_eq,
  ◌==◌, if◌then◌else◌, is_nil, Option, none, some,
}
use vss.Text.{contains, cut_last}
use vss.Storage.Interface.{IStorage}

-- `if flagName[0] != '_' { flagName = "_" + flagName }`, for a name that is not empty.
unfoldable pub flag_name : Bytes → Bytes
flag_name [] = []
flag_name (c ∷ s) = if c == b'_' then c ∷ s else b'_' ∷ c ∷ s

abbrev pub flag_key : Bytes → Bytes → Bytes
flag_key name flag = name ++ b'.' ∷ flag_name flag

abbrev pub lock_flag : Bytes
lock_flag = codes "lock"

abbrev before_last : Option (Bytes × Bytes) → Bytes
before_last none = []
before_last (some (before, after)) = before

-- GetParentName
unfoldable pub get_parent_name : Bytes → Bytes
get_parent_name name = before_last (cut_last b'.' name)

-- GetChildNames: which child names it returns.
unfoldable pub shown_childs : Bool → List Bytes → List Bytes
shown_childs allow_raw_db_access [] = []
shown_childs allow_raw_db_access ([] ∷ rest) = shown_childs allow_raw_db_access rest
shown_childs allow_raw_db_access ((c ∷ ch) ∷ rest) =
    let shown = shown_childs allow_raw_db_access rest in
    if not allow_raw_db_access && c == b'_' then shown else (c ∷ ch) ∷ shown

module _ {S : Type 0} (db : IStorage S) (name : Bytes) where
  open db use {set, get, get_child_names as child_names, delete_value as delete}

  unfoldable pub get_value : S → Bytes
  get_value s = get name [] s

  unfoldable pub set_value : Bytes → S → S
  set_value v s = if contains name b'*' then s else set name v s

  unfoldable pub get_child_names : Bool → S → List Bytes
  get_child_names allow_raw_db_access s = shown_childs allow_raw_db_access (child_names name s)

  unfoldable pub delete_value : S → S
  delete_value s = delete name false s

  unfoldable pub set_flag : Bytes → Bytes → S → S
  set_flag flag v s = if is_nil flag then s else set (flag_key name flag) v s

  unfoldable pub get_flag : Bytes → Bytes → S → Bytes
  get_flag flag default s = if is_nil flag then default else get (flag_key name flag) default s

  unfoldable pub is_locked : S → Bool
  is_locked s =
      let lock_val = get_flag lock_flag (codes "0") s in
      not (str_eq lock_val (codes "0")) && not (is_nil lock_val)

  -- `tryLock`, which holds the named lock "varLockerSystem" while it runs.
  unfoldable pub try_lock : S → Bool × S
  try_lock s =
      if is_locked s
      then (false, s)
      else let s1 = set_flag lock_flag (codes "1") s in (is_locked s1, s1)

  -- Lock: a try, and another one after each pause until the time is up. `pauses` says what the
  -- others do to the storage in each pause; `false` is the timeout error.
  unfoldable pub lock : List (S → S) → S → Bool × S
  lock [] s = try_lock s
  lock (pause ∷ pauses) s =
      let later = lock pauses (pause (try_lock s).1) in if (try_lock s).0 then try_lock s else later

  unfoldable pub unlock : S → S
  unlock s = set_flag lock_flag (codes "0") s
