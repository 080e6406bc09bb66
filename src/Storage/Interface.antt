-- ===== src/Storage/Interface.antt =====
-- istorage.go, `IStorage`: the operations that the controller calls, with the laws that it may rely
-- on, and the implementation that fills it. Two keys are the same if they name the same path.
use vss.Prelude.{Bytes, List, ◌≡◌, Bool, false, ◌&&◌, ◌||◌, not, [], if◌then◌else◌, is_nil}
use vss.Storage.Keys.{key_path}
use vss.Storage.Values.{path_eq, is_prefix}
use vss.Storage.Db
use vss.Storage.Db.{RamCachedDb}
use vss.Storage.Contract

pub record IStorage (S : Type 0) : Type 0 where
  pub set : Bytes → Bytes → S → S
  pub get : Bytes → Bytes → S → Bytes
  pub has_value : Bytes → S → Bool
  pub get_child_names : Bytes → S → List Bytes
  pub delete_value : Bytes → Bool → S → S
  pub get_default :
      (k default : Bytes) (s : S)
      → get k default s ≡ (if has_value k s then get k [] s else default)
  pub get-set :
      (k j v default : Bytes) (s : S)
      → get k default (set j v s) ≡ (
          if path_eq (key_path k) (key_path j)
          then v
          else if is_prefix (key_path k) (key_path j)
          then get k [] s
          else get k default s)
  pub has_value-set :
      (k j v : Bytes) (s : S)
      → has_value k (set j v s) ≡ (is_prefix (key_path k) (key_path j) || has_value k s)
  pub get-delete_value :
      (k j default : Bytes) (cascade : Bool) (s : S)
      → is_nil j ≡ false
      → get k default (delete_value j cascade s) ≡ (
          if path_eq (key_path k) (key_path j)
          then (if has_value k s && not (cascade || is_nil (get_child_names j s))
              then []
              else default)
          else if cascade && is_prefix (key_path j) (key_path k)
          then default
          else get k default s)
  pub has_value-delete_value :
      (k j : Bytes) (cascade : Bool) (s : S)
      → is_nil j ≡ false
      → has_value k (delete_value j cascade s) ≡ (
          has_value k s
          && not (
              if path_eq (key_path k) (key_path j)
              then cascade || is_nil (get_child_names j s)
              else cascade && is_prefix (key_path j) (key_path k)))

abbrev pub ram_storage : IStorage RamCachedDb
ram_storage = record {
  set = Db.set;
  get = Db.get;
  has_value = Db.has_value;
  get_child_names = Db.get_child_names;
  delete_value = Db.delete_value;
  get_default = Contract.get_default;
  get-set = Contract.get-set;
  has_value-set = Contract.has_value-set;
  get-delete_value = Contract.get-delete_value_listed;
  has_value-delete_value = Contract.has_value-delete_value;
}
