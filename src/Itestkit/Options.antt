-- ===== src/Itestkit/Options.antt =====
-- itestkit/options.go: what a test asks of the stack. A map of Go is an association list with
-- distinct keys, in the order in which `range` visits it; durations are in nanoseconds and not
-- negative.
use aeternixth_go_lib.Prelude.{ℕ, Bool, String, List}

pub record NetworkOptions : Type 0 where
  pub enabled : Bool
  pub name : String

-- Durations are words of 64 bits in two's complement: a negative one has its highest bit set.
pub record TimeoutOptions : Type 0 where
  pub startup_timeout : ℕ
  pub migration_timeout : ℕ
  pub seed_timeout : ℕ
  pub topic_timeout : ℕ
  pub cleanup_timeout : ℕ
  pub http_mock_setup_timeout : ℕ
  pub local_stack_init_timeout : ℕ

pub record DebugOptions : Type 0 where
  pub debug_enabled : Bool
  pub keep_containers_on_failure : Bool
  pub print_connection_info : Bool
  pub print_container_logs : Bool
  pub reuse_containers : Bool

pub record PostgresOptions : Type 0 where
  pub image : String
  pub database : String
  pub username : String
  pub password : String
  pub migration_paths : List String
  pub seed_paths : List String
  pub init_scripts : List String
  pub config_file : String
  pub apply_migrations : Bool
  pub apply_seeds : Bool
  pub strict_path : Bool
  pub drop_public_schema_before_migrate : Bool
  pub truncate_tables_before_seed : List String
  pub extra_env : List (String × String)

pub record ClickHouseOptions : Type 0 where
  pub image : String
  pub database : String
  pub username : String
  pub password : String
  pub migration_paths : List String
  pub seed_paths : List String
  pub init_scripts : List String
  pub config_file : String
  pub apply_migrations : Bool
  pub apply_seeds : Bool
  pub strict_path : Bool
  pub extra_env : List (String × String)

pub record RedisOptions : Type 0 where
  pub image : String
  pub config_file : String
  pub use_tls : Bool
  pub flush_before_test : Bool
  pub extra_env : List (String × String)

pub record KafkaTopic : Type 0 where
  pub topic_name : String
  pub partitions : ℕ
  pub replication_factor : ℕ
  pub config : List (String × String)

pub record KafkaOptions : Type 0 where
  pub image : String
  pub cluster_id : String
  pub topics : List KafkaTopic
  pub create_topics : Bool
  pub extra_env : List (String × String)

pub record HttpExpectation : Type 0 where
  pub method : String
  pub path : String
  pub query_params : List (String × String)
  pub request_headers : List (String × String)
  pub request_body : String
  pub response_status : ℕ
  pub response_headers : List (String × String)
  pub response_body : String
  pub delay : ℕ
  pub times : ℕ

pub record HttpMockOptions : Type 0 where
  pub provider : String
  pub image : String
  pub mapping_paths : List String
  pub file_paths : List String
  pub expectations : List HttpExpectation
  pub strict_path : Bool
  pub extra_env : List (String × String)

pub record LocalStackOptions : Type 0 where
  pub image : String
  pub services : List String
  pub region : String
  pub init_scripts : List String
  pub strict_path : Bool
  pub extra_env : List (String × String)

-- `StackOptions`, without the logger
pub record StackOptions : Type 0 where
  pub project_name : String
  pub postgres : List (String × PostgresOptions)
  pub click_house : List (String × ClickHouseOptions)
  pub redis : List (String × RedisOptions)
  pub kafka : List (String × KafkaOptions)
  pub http_mocks : List (String × HttpMockOptions)
  pub local_stack : List (String × LocalStackOptions)
  pub network : NetworkOptions
  pub timeouts : TimeoutOptions
  pub debug : DebugOptions

abbrev pub mock_server : String
mock_server = "mockserver"

abbrev pub wire_mock : String
wire_mock = "wiremock"
