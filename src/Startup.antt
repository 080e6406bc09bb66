-- ===== src/Startup.antt =====
-- main.go: the configuration of the server, the storage that it starts, and the arguments that it
-- refuses. The command line, the environment, the configuration file and the directories are
-- arguments.
pub mod Entries
pub mod Items
pub mod Limits
pub mod Help
use vss.Prelude.{
  ℕ, Bytes, codes, List, [], ◌∷◌, ◌++◌, Bool, true, false, ◌||◌, Option, none, some, str_eq,
  if◌then◌else◌,
}
use vss.Prelude.Int.{ℤ}
use vss.Text.{cut, has_prefix}
use vss.DynamicVar.{get_int64}
use vss.Confs.{
  Confs, ConfItem, new_confs, create_config, add_place_holders, find_conf_by_param_name,
  with_possible_names, with_default_value, with_value_map, with_validation,
}
use vss.Confs
use vss.Confs.Sources.{command_line_source, env_source, file_source}
use vss.Startup.Entries.{all_entries}
use vss.Startup.Items.{
  Entry, checked, unchecked, port_error, positive_error, interval_error, log_size_error,
  log_level_error, driver_error,
}

unfoldable pub create_all : List Entry → Confs → Confs
create_all [] confs = confs
create_all ((name, options) ∷ entries) confs =
    create_all entries (create_config name options confs).2

-- What the process is started with.
pub record Host : Type 0 where
  pub args : List Bytes
  pub getenv : Bytes → Bytes
  pub file_lines : Option (List Bytes)
  pub app_dir : Bytes
  pub data_dir : Bytes

abbrev pub place_holders_of : Host → List (Bytes × Bytes)
place_holders_of host =
    (codes "%PROJECT_DIR%", host.app_dir)
    ∷ (codes "%APP_DIR%", host.app_dir)
    ∷ (codes "%SUGGESTED_DATA_PATH%", host.data_dir)
    ∷ []

abbrev pub started_confs : Host → Confs
started_confs host = add_place_holders (place_holders_of host) (
    new_confs
      (command_line_source host.args ∷ env_source host.getenv ∷ file_source host.file_lines ∷ []))

unfoldable pub init_configurations : (Bytes → Bytes) → Host → Confs
init_configurations atoi_error host = create_all (all_entries atoi_error) (started_confs host)

-- configs.GetConfig(name).Value()
unfoldable pub config_value : Bytes → Confs → Bytes
config_value name confs = Confs.value (create_config name [] confs).0

-- Which storage is started, with its directory and the interval of its dumps.
pub data StorageKind : Type 0 where
  ram_cache_db : Bytes → ℤ → StorageKind
  ram_cached_db_pkv : Bytes → ℤ → StorageKind

unfoldable pub init_storage : Confs → StorageKind
init_storage confs =
    let path = config_value (codes "DbPath") confs in
    let interval = get_int64 (config_value (codes "RamCacheDbDumpIntervalMs") confs) in
    if str_eq (config_value (codes "DbDriver") confs) (codes "ramcacheddbpkv")
    then ram_cache_db path interval
    else ram_cached_db_pkv path interval

abbrev name_before : Bytes → Option (Bytes × Bytes) → Option (Bytes × Bytes) → Bytes
name_before arg none none = arg
name_before arg none (some (name, v)) = name
name_before arg (some (name, v)) colon = name

abbrev is_missing : Option ConfItem → Bool
is_missing none = true
is_missing (some c) = false

-- detectInvalidArguments, of the arguments behind the name of the program.
unfoldable pub detect_invalid_arguments : List Bytes → Confs → Bool
detect_invalid_arguments [] confs = false
detect_invalid_arguments (arg ∷ args) confs =
    is_missing (find_conf_by_param_name (name_before arg (cut b'=' arg) (cut b':' arg)) confs)
    || detect_invalid_arguments args confs

-- runningInPortableMode, of the path of the program.
unfoldable pub running_in_portable_mode : Bytes → Bool
running_in_portable_mode path =
    if has_prefix path (codes "/usr") || has_prefix path (codes "/bin") then false else true

-- suggestDataDirectory
unfoldable pub suggest_data_directory : Bytes → Bytes → Bytes
suggest_data_directory path app_dir =
    if running_in_portable_mode path then app_dir ++ codes "/data" else codes "/var/vss/data"
