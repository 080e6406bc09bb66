-- ===== src/Startup/Entries.antt =====
-- main.go, `initConfigurations`: the items, in the order of the calls of CreateConfig.
use vss.Prelude.{Bytes, codes, List, [], ◌∷◌, ◌++◌}
use vss.Confs.{with_possible_names, with_default_value, with_value_map, with_validation}
use vss.Startup.Items.{
  Entry, checked, unchecked, port_error, positive_error, interval_error, log_size_error,
  log_level_error, driver_error,
}

abbrev log_levels : List (Bytes × Bytes)
log_levels =
    (codes "trace", codes "9")
    ∷ (codes "debug2", codes "10")
    ∷ (codes "debug", codes "20")
    ∷ (codes "info2", codes "30")
    ∷ (codes "info", codes "40")
    ∷ (codes "warning", codes "50")
    ∷ (codes "error", codes "60")
    ∷ (codes "critical", codes "70")
    ∷ []

-- The three names that most items have.
abbrev three_names : Bytes → Bytes → List Bytes
three_names name env_name = name ∷ (codes "--" ++ name) ∷ env_name ∷ []

abbrev log_level : Bytes → Bytes → Bytes → Bytes → Entry
log_level name param env_name default_value = (
  name,
  with_possible_names (three_names param env_name)
      ∷ with_default_value default_value
      ∷ with_value_map log_levels
      ∷ with_validation (λ i. log_level_error i.the_value)
      ∷ [],
)

abbrev max_log_file_size : (Bytes → Bytes) → Entry
max_log_file_size atoi_error =
    checked (codes "maxLogFileSize")
      (three_names (codes "max-log-file-size") (codes "VSS_MAX_LOG_FILE_SIZE")) (codes "52428800")
      (log_size_error atoi_error)

abbrev file_log_level : Entry
file_log_level =
    log_level (codes "fileLogLevel") (codes "file-log-level") (codes "VSS_FILE_LOG_LEVEL")
      (codes "info2")

abbrev stdout_log_level : Entry
stdout_log_level =
    log_level (codes "stdoutLogLevel") (codes "stdout-log-level") (codes "VSS_STDOUT_LOG_LEVEL")
      (codes "info")

abbrev server_discovery_port : Entry
server_discovery_port =
    unchecked (codes "serverDiscoveryPort")
      (three_names (codes "server-discovery-port") (codes "VSS_SERVER_DISCOVERY_PORT"))
      (codes "5022")

abbrev max_time_waiting_client : Entry
max_time_waiting_client =
    unchecked (codes "maxTimeWaitingClient_seconds")
      (codes "max-time-waiting-client-seconds"
        ∷ codes "--max-time-waiting-for-clients"
        ∷ codes "VSS_MAX_TIME_WAITING_CLIENTS"
        ∷ [])
      (codes "43200")

abbrev db_driver : Entry
db_driver =
    checked (codes "DbDriver") (three_names (codes "db-driver") (codes "VSS_DB_DRIVER"))
      (codes "ramcacheddb") driver_error

abbrev db_path : Entry
db_path =
    unchecked (codes "DbPath") (three_names (codes "db-path") (codes "VSS_DB_PATH"))
      (codes "%SUGGESTED_DATA_PATH%/database")

abbrev http_data_dir : Entry
http_data_dir =
    unchecked (codes "httpDataDir")
      (codes "http-data-directory"
        ∷ codes "--http-data-directory"
        ∷ codes "--http-data-dir"
        ∷ codes "VSS_HTTP_DATA_DIRECTORY"
        ∷ [])
      (codes "%SUGGESTED_DATA_PATH%/http_data")

abbrev http_api_port : Entry
http_api_port =
    checked (codes "httpApiPort") (three_names (codes "http-api-port") (codes "VSS_HTTP_API_PORT"))
      (codes "5024") port_error

abbrev http_api_https_port : Entry
http_api_https_port =
    checked (codes "httpApiHttpsPort")
      (three_names (codes "http-api-https-port") (codes "VSS_HTTP_API_HTTPS_PORT")) (codes "5025")
      port_error

abbrev http_api_cert_file : Entry
http_api_cert_file =
    unchecked (codes "httpApiCertFile")
      (three_names (codes "http-api-cert-file") (codes "VSS_HTTP_API_CERT_FILE"))
      (codes "%APP_DIR%/ssl/cert/vssCert.pem")

abbrev http_api_key_file : Entry
http_api_key_file =
    unchecked (codes "httpApiKeyFile")
      (three_names (codes "http-api-key-file") (codes "VSS_HTTP_API_KEY_FILE"))
      (codes "%APP_DIR%/ssl/cert/vssKey.pem")

abbrev http_api_returns_full_paths : Entry
http_api_returns_full_paths =
    unchecked (codes "httpApiReturnsFullPaths")
      (three_names (codes "http-api-returns-full-paths") (codes "VSS_HTTP_API_RETURN_FULL_PATHS"))
      (codes "false")

abbrev vstp_api_port : Entry
vstp_api_port =
    checked (codes "vstpApiPort") (three_names (codes "vstp-api-port") (codes "VSS_VSTP_API_PORT"))
      (codes "5032") port_error

abbrev dump_interval : Entry
dump_interval =
    checked (codes "RamCacheDbDumpIntervalMs")
      (three_names (codes "ram-cache-db-dump-interval-ms")
        (codes "VSS_RAMCACHEDB_DUMP_INTERVAL_MS"))
      (codes "60000") interval_error

abbrev max_key_length : Entry
max_key_length =
    checked (codes "maxKeyLength")
      (three_names (codes "max-key-length") (codes "VSS_MAX_KEY_LENGTH")) (codes "255")
      positive_error

abbrev max_key_word_length : Entry
max_key_word_length =
    checked (codes "maxKeyWordLength")
      (three_names (codes "max-key-word-length") (codes "VSS_MAX_KEY_WORD_LENGTH")) (codes "64")
      positive_error

abbrev max_value_size : Entry
max_value_size =
    checked (codes "maxValueSize")
      (three_names (codes "max-value-size") (codes "VSS_MAX_VALUE_SIZE")) (codes "1048576")
      positive_error

abbrev allow_raw_db_access : Entry
allow_raw_db_access =
    unchecked (codes "allowRawDbAccess")
      (three_names (codes "allow-raw-db-access") (codes "VSS_ALLOW_RAW_DB_ACCESS")) (codes "false")

-- The calls of CreateConfig in their order.
abbrev pub all_entries : (Bytes → Bytes) → List Entry
all_entries atoi_error =
    max_log_file_size atoi_error
    ∷ file_log_level
    ∷ stdout_log_level
    ∷ server_discovery_port
    ∷ max_time_waiting_client
    ∷ db_driver
    ∷ db_path
    ∷ http_data_dir
    ∷ http_api_port
    ∷ http_api_https_port
    ∷ http_api_cert_file
    ∷ http_api_key_file
    ∷ http_api_returns_full_paths
    ∷ vstp_api_port
    ∷ dump_interval
    ∷ max_key_length
    ∷ max_key_word_length
    ∷ max_value_size
    ∷ allow_raw_db_access
    ∷ []
