-- ===== src/Tests/Startup.antt =====
-- The start of the server at concrete inputs.
use vss.Prelude.{codes, [], ◌∷◌, ◌≡◌, refl, none, str_eq}
use vss.Prelude.Dict.{find, store}
use vss.Prelude.Int.{pos, le_int}
use vss.Text.{cut, has_prefix, contains_text}
use vss.DynamicVar.{atoi, digits_value, is_digit, get_int64}
use vss.Confs
use vss.Confs.Sources.{find_in, find_env, read_args, new_file_source, underscored}
use vss.Startup.{
  Host, init_configurations, init_storage, ram_cached_db_pkv, create_all, config_value,
}
use vss.Startup.Items.{
  port_error, log_size_error, log_level_error, driver_error, interval_error, positive_error,
}
use vss.Startup.Limits.{IsWithin, IsPositive, init_configurations-IsWithin}

abbrev wrong_port : Host
wrong_port = record {
  args = codes "--http-api-port=70000" ∷ [];
  getenv = λ name. [];
  file_lines = none;
  app_dir = codes "/opt/vss";
  data_dir = codes "/opt/vss/data";
}

init_configurations-IsWithin_example :
    IsWithin 1 65535 (config_value (codes "httpApiPort") (init_configurations (λ v. v) wrong_port))
    × IsWithin 1 65535
        (config_value (codes "vstpApiPort") (init_configurations (λ v. v) wrong_port))
    × IsPositive (config_value (codes "maxKeyLength") (init_configurations (λ v. v) wrong_port))
    × IsPositive (config_value (codes "maxKeyWordLength") (init_configurations (λ v. v) wrong_port))
    × IsPositive (config_value (codes "maxValueSize") (init_configurations (λ v. v) wrong_port))
init_configurations-IsWithin_example = init_configurations-IsWithin (λ v. v) wrong_port

-- The default driver is `ramcacheddb`, and the storage over the prefix tree is started.
default_storage :
    init_storage (init_configurations (λ v. v) wrong_port)
    ≡ ram_cached_db_pkv (codes "/opt/vss/data/database") (pos 60000)
unfolding init_storage init_configurations create_all config_value Confs.create_config
    Confs.new_conf_item Confs.apply_options Confs.apply_option Confs.from_sources find_in find_env
    read_args new_file_source underscored cut find store str_eq Confs.apply_place_holders
    Confs.replace_all has_prefix Confs.value Confs.to_lower Confs.validate_this_value driver_error
    interval_error log_size_error log_level_error contains_text port_error atoi digits_value
    is_digit le_int get_int64 Confs.add_place_holders Confs.store_all positive_error
    Confs.add_value_map
default_storage = refl
