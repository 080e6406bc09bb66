-- ===== src/Tests/Queue.antt =====
-- The queue over variables, of sources/misc/goVssClient/varbasedrsm, at concrete variables.
use vss.Prelude.{
  Bytes, codes, List, [], ◌∷◌, ◌≡◌, refl, Option, none, some, str_eq, true, eq_of_str_eq,
  str_eq_refl, ◌↔◌, ◌∙◌, ◌++◌,
}
use vss.Prelude.Dict.{find, store, discard, find-store, find-discard}
use vss.Client.Queue.{VarBasedRsm, Printed}
use vss.Client.Queue.Own.{IsKeptBelow, posted, round, after_actions, after_actions_keep}

abbrev listed : Bytes → Option Bytes → Option Bytes × List (Bytes × Bytes)
listed name none = (none, [])
listed name (some value) = (none, (name, value) ∷ [])

-- Variables that are a list of names and values.
abbrev kept_vars : VarBasedRsm (List (Bytes × Bytes))
kept_vars = record {
  get_var = λ name r. listed name (find str_eq name r);
  set_var = λ name value r. (none, store str_eq name value r);
  delete_var = λ name r. (none, discard str_eq name r);
  lock = λ name timeout r. (none, r);
  unlock = λ name r. (none, r);
}

str_eq_iff : (s t : Bytes) → (str_eq s t ≡ true) ↔ (s ≡ t)
str_eq_iff s t = (eq_of_str_eq s t, λ e. rw e (str_eq_refl t))

-- A variable that is not the queue's.
abbrev HasLamp : List (Bytes × Bytes) → Type 0
HasLamp r = find str_eq (codes "lamp") r ≡ some (codes "on")

lamp-IsKeptBelow : IsKeptBelow kept_vars (codes "q") HasLamp
unfolding str_eq
lamp-IsKeptBelow = record {
  by_set = λ rest value r h.
      find-store str_eq str_eq_iff (codes "q" ++ b'.' ∷ rest) (codes "lamp") value r ∙ h;
  by_delete =
      λ rest r h. find-discard str_eq str_eq_iff (codes "q" ++ b'.' ∷ rest) (codes "lamp") r ∙ h;
  by_lock = λ rest timeout r h. h;
  by_unlock = λ rest r h. h;
}

-- What is printed of the functions: an address.
abbrev addresses : Printed
addresses = record {
  zero_text = codes "0x4a01";
  count_text = codes "0x4a02";
  next_text = codes "0x4a02";
}

after_actions_keep_example : HasLamp (
    after_actions kept_vars addresses
      (codes "q")
      (posted (codes "one") ∷ round ∷ posted (codes "two") ∷ [])
      ((codes "lamp", codes "on") ∷ []))
after_actions_keep_example =
    after_actions_keep kept_vars addresses (codes "q") HasLamp lamp-IsKeptBelow
      (posted (codes "one") ∷ round ∷ posted (codes "two") ∷ []) ((codes "lamp", codes "on") ∷ [])
      (unfold find str_eq in refl)
