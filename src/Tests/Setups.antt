-- ===== src/Tests/Setups.antt =====
-- The file system and the setup of itestkit at concrete answers.
use aeternixth_go_lib.Prelude.{
  ℕ, true, false, List, [], ◌∷◌, none, some, String, inl, inr, codes, codes_eq, if◌then◌else◌, ◌≡◌,
  refl,
}
use aeternixth_go_lib.Prelude.Sorting.{leb_text}
use aeternixth_go_lib.Itestkit.Options.{StackOptions, PostgresOptions}
use aeternixth_go_lib.Itestkit.Docker.{Docker}
use aeternixth_go_lib.Itestkit.Files.{FileSystem, not_exist, directory, regular}
use aeternixth_go_lib.Itestkit.Files.Collect.{collect_sql_files}
use aeternixth_go_lib.Itestkit.Files.Collect.Laws.{Collected, first_problem, collect_sql_files_lem}
use aeternixth_go_lib.Itestkit.Outside.{Outside, postgres_db, open_db, ping_db, exec_db}
use aeternixth_go_lib.Itestkit.Setup.Phases.{Services, postgres_migrations, run_phase}
use aeternixth_go_lib.Itestkit.Services.Clickhouse.{ClickHouseResource}
use aeternixth_go_lib.Itestkit.Environment.Export.{read, export_env}
use aeternixth_go_lib.Itestkit.Stack.{no_services, network_up, start_services, start_stack}
use aeternixth_go_lib.Itestkit.Stack.Calls.{Phased, start_stack-Phased}
use aeternixth_go_lib.Itestkit.Validation.{apply_defaults}
use aeternixth_go_lib.Tests.Stacks.{client, no_answer, options}

-- A directory with two SQL files in the wrong order, a hidden one and a note, and one file beside.
abbrev files : FileSystem
files = record {
  stat = λ p.
      if codes_eq p (codes "db")
      then directory
      else if codes_eq p (codes "m.sql")
      then regular
      else not_exist;
  read_dir = λ p. inl (
      record { entry_name = codes "z.sql"; is_dir = false }
      ∷ record { entry_name = codes ".a.sql"; is_dir = false }
      ∷ record { entry_name = codes "note"; is_dir = false }
      ∷ record { entry_name = codes "a.sql"; is_dir = false }
      ∷ []);
  read_file = λ p. if codes_eq p (codes "db/z.sql") then inr "no permission" else inl (codes "x");
  walk_dir = λ p. inl [];
  unicode_lower = λ c. c;
}

abbrev paths : List (List ℕ)
paths = codes "db" ∷ codes "gone" ∷ codes "m.sql" ∷ []

collected_files :
    collect_sql_files files false paths
    ≡ inl (record {
      files = codes "db/a.sql" ∷ codes "m.sql" ∷ codes "db/z.sql" ∷ [];
      missing = codes "gone" ∷ [];
    })
unfolding collect_sql_files codes_eq leb_text
collected_files = refl

collect_sql_files_lem_example : Collected files false paths (first_problem files false paths)
collect_sql_files_lem_example = collect_sql_files_lem files false paths

abbrev core_db : PostgresOptions
core_db = record {
  image = "";
  database = "";
  username = "";
  password = "";
  migration_paths = "db" ∷ "m.sql" ∷ [];
  seed_paths = "m.sql" ∷ [];
  init_scripts = [];
  config_file = "";
  apply_migrations = true;
  apply_seeds = true;
  strict_path = false;
  drop_public_schema_before_migrate = true;
  truncate_tables_before_seed = "t" ∷ [];
  extra_env = [];
}

abbrev database_options : StackOptions
database_options = record options { postgres = ("core", core_db) ∷ [] }

abbrev running : Services
running = record {
  postgres_map =
      (
        "core",
        record {
          name = "core";
          dsn = "dsn";
          host = "h";
          port = "1";
          database_name = "d";
          user = "u";
          pass = "p";
          container = 0;
        },
      )
      ∷ [];
  clickhouse_map = [];
  redis_map = [];
  kafka_map = [];
  mock_map = [];
  local_map = [];
}

-- Every call succeeds.
abbrev all_well : Outside
all_well = record no_answer { fails = λ h e. none }

abbrev begun : Docker
begun = record { started = 1; terminated = []; dropped = []; history = [] }

-- The last migration cannot be read.
migrated : (run_phase all_well files database_options running postgres_migrations []).1 ≡ (
    open_db postgres_db "dsn"
    ∷ exec_db postgres_db "dsn"
        (codes "DROP SCHEMA IF EXISTS public CASCADE; CREATE SCHEMA public;")
    ∷ open_db postgres_db "dsn"
    ∷ ping_db postgres_db "dsn"
    ∷ exec_db postgres_db "dsn" (codes "x")
    ∷ open_db postgres_db "dsn"
    ∷ ping_db postgres_db "dsn"
    ∷ exec_db postgres_db "dsn" (codes "x")
    ∷ [])
unfolding run_phase codes_eq leb_text
migrated = refl

start_stack-Phased_example :
    Phased client files all_well false
      (apply_defaults database_options)
      begun.history
      (start_services client files all_well false
        (apply_defaults database_options)
        true
        network_up
        begun)
      (start_stack client files all_well none database_options begun)
start_stack-Phased_example = start_stack-Phased client files all_well none database_options begun

abbrev analytics : String → String → ClickHouseResource
analytics dsn http_dsn = record {
  name = "";
  dsn = dsn;
  http_dsn = http_dsn;
  host = "";
  native_port = "";
  http_port = "";
  database_name = "";
  user = "";
  pass = "";
  container = 0;
}

-- Two instances whose names are accepted get one variable: the first one's HTTP address is lost.
one_variable :
    read (codes "CLICKHOUSE_X_HTTP_DSN") (
      export_env
        (λ c. c)
        (record no_services {
          clickhouse_map =
              ("x", analytics "native-x" "http-x") ∷ ("x_http", analytics "native-y" "http-y") ∷ [];
        }))
    ≡ some "native-y"
unfolding read export_env codes_eq
one_variable = refl
