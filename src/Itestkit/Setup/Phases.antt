-- ===== src/Itestkit/Setup/Phases.antt =====
-- The phases of `StartStack` in itestkit/stack.go, and the plan of each.
use Prim.Native.String.{◌++◌ as text_append}
use aeternixth_go_lib.Prelude.{
  ℕ, Bool, true, ◌&&◌, String, List, [], ◌∷◌, ◌++◌, none, some, codes, lookup, map, if◌then◌else◌,
  flat_map, str_eq,
}
use aeternixth_go_lib.Itestkit.Options.{StackOptions, KafkaTopic, HttpExpectation, mock_server}
use aeternixth_go_lib.Itestkit.Services.Postgres.{PostgresResource}
use aeternixth_go_lib.Itestkit.Services.Clickhouse.{ClickHouseResource}
use aeternixth_go_lib.Itestkit.Services.Redis.{RedisResource}
use aeternixth_go_lib.Itestkit.Services.Kafka.{KafkaResource}
use aeternixth_go_lib.Itestkit.Services.Localstack.{LocalStackResource}
use aeternixth_go_lib.Itestkit.Services.Mockserver.{HttpMockResource}
use aeternixth_go_lib.Itestkit.Files.{FileSystem}
use aeternixth_go_lib.Itestkit.Files.Paths.{base}
use aeternixth_go_lib.Itestkit.Files.Collect.{collect_sql_files, read_file}
use aeternixth_go_lib.Itestkit.Identifiers.{truncate_statement}
use aeternixth_go_lib.Itestkit.Sqlrunner.{split_sql}
use aeternixth_go_lib.Itestkit.Setup.Sql.{
  non_empty, apply_postgres_migrations, apply_postgres_seeds, apply_clickhouse_migrations,
  apply_clickhouse_seeds,
}
use aeternixth_go_lib.Itestkit.Setup.Clients.{
  flush_all_redis, create_all_kafka_topics, apply_expectations, topic_specs, expectation_json,
}
use aeternixth_go_lib.Itestkit.Setup.Localstack.{expand_scripts, run_init_scripts}
use aeternixth_go_lib.Itestkit.Setup.Plan.{Task, does, stop, one, with_value}
use aeternixth_go_lib.Itestkit.Outside.{
  Outside, Database, postgres_db, clickhouse_db, open_db, ping_db, exec_db, flush_redis, dial_kafka,
  ask_controller, create_topics, put_expectation, copy_file, exec_file, Act,
}

-- The maps of `Stack`
pub record Services : Type 0 where
  pub postgres_map : List (String × PostgresResource)
  pub clickhouse_map : List (String × ClickHouseResource)
  pub redis_map : List (String × RedisResource)
  pub kafka_map : List (String × KafkaResource)
  pub mock_map : List (String × HttpMockResource)
  pub local_map : List (String × LocalStackResource)

pub data Phase : Type 0 where
  postgres_migrations clickhouse_migrations postgres_seeds clickhouse_seeds redis_flush : Phase
  kafka_topics mock_expectations localstack_scripts : Phase

-- The order in which `StartStack` runs them.
abbrev pub phases : List Phase
phases =
    postgres_migrations ∷ clickhouse_migrations ∷ postgres_seeds ∷ clickhouse_seeds ∷ redis_flush
    ∷ kafka_topics ∷ mock_expectations ∷ localstack_scripts ∷ []

-- The call of `StartStack` that is the phase
unfoldable pub run_phase : Outside → FileSystem → StackOptions → Services → Phase → Act (Unit {0})
unfolding apply_postgres_migrations apply_clickhouse_migrations apply_postgres_seeds
    apply_clickhouse_seeds flush_all_redis create_all_kafka_topics apply_expectations
    run_init_scripts
run_phase out fs opts s postgres_migrations =
    apply_postgres_migrations out fs (out.range 0 opts.postgres) s.postgres_map
run_phase out fs opts s clickhouse_migrations =
    apply_clickhouse_migrations out fs (out.range 1 opts.click_house) s.clickhouse_map
run_phase out fs opts s postgres_seeds =
    apply_postgres_seeds out fs (out.range 2 opts.postgres) s.postgres_map
run_phase out fs opts s clickhouse_seeds =
    apply_clickhouse_seeds out fs (out.range 3 opts.click_house) s.clickhouse_map
run_phase out fs opts s redis_flush = flush_all_redis out (out.range 4 opts.redis) s.redis_map
run_phase out fs opts s kafka_topics =
    create_all_kafka_topics out (out.range 5 opts.kafka) s.kafka_map
run_phase out fs opts s mock_expectations =
    apply_expectations out (out.range 6 opts.http_mocks) s.mock_map
run_phase out fs opts s localstack_scripts =
    run_init_scripts fs out (out.range 7 opts.local_stack) s.local_map

-- The calls of a database for one script: pgx takes it whole, ClickHouse statement by statement.
abbrev pub script_plan : Database → String → List ℕ → List Task
script_plan postgres_db dsn script =
    does (λ h. open_db postgres_db dsn)
    ∷ does (λ h. ping_db postgres_db dsn)
    ∷ one (exec_db postgres_db dsn script)
script_plan clickhouse_db dsn script =
    does (λ h. open_db clickhouse_db dsn)
    ∷ does (λ h. ping_db clickhouse_db dsn)
    ∷ flat_map (λ stmt. one (exec_db clickhouse_db dsn stmt)) (split_sql script)

-- The steps for a configured instance that is asked for and runs.
abbrev pub asked_plan :
    {Res : Type 0} → Bool → List (String × Res) → String → (Res → List Task) → List Task
asked_plan asked res name f =
    if asked then elim (lookup name res) [ none ↦ [] | some r ↦ f r ] else []

module _ (fs : FileSystem) where
  -- The scripts of the paths, each file in the order of `CollectSQLFiles`.
  abbrev pub scripts_plan : Database → String → Bool → List String → List Task
  scripts_plan db dsn strict paths =
      with_value (collect_sql_files fs strict (map codes paths))
        (λ found. flat_map (λ f. with_value (read_file fs f) (script_plan db dsn)) found.files)

  abbrev pub drop_plan : Bool → String → List Task
  drop_plan asked dsn =
      if asked
      then does (λ h. open_db postgres_db dsn)
        ∷ one (
            exec_db postgres_db dsn
              (codes "DROP SCHEMA IF EXISTS public CASCADE; CREATE SCHEMA public;"))
      else []

  abbrev pub truncate_plan : List String → String → List Task
  truncate_plan tables dsn = elim (truncate_statement (map codes tables)) [
    | none ↦ []
    | some stmt ↦ does (λ h. open_db postgres_db dsn) ∷ one (exec_db postgres_db dsn stmt)
  ]

  abbrev pub bash_plan : ℕ → List ℕ → List Task
  bash_plan container script =
      let target = codes "/tmp/itestkit-init/" ++ base script in
      with_value (fs.read_file script) (λ content.
        does (λ h. copy_file container content target) ∷ one (exec_file container target))

  module _ (out : Outside) where
    abbrev pub topics_plan : List String → List KafkaTopic → List Task
    topics_plan [] topics = stop ∷ []
    topics_plan (b ∷ brokers) [] = []
    topics_plan (b ∷ brokers) (t ∷ topics) =
        does (λ h. dial_kafka b)
        ∷ does (λ h. ask_controller b)
        ∷ does (λ h. dial_kafka (out.controller h))
        ∷ one (create_topics (topic_specs (t ∷ topics)))

    abbrev pub flush_plan : String → List Task
    flush_plan url = elim (out.redis_url url) [
      | some err ↦ stop ∷ []
      | none ↦ one (flush_redis url)
    ]

    abbrev pub expectation_plan : String → HttpExpectation → List Task
    expectation_plan base_url e =
        let url = text_append base_url "/mockserver/expectation" in
        elim (out.http_request url) [
          | some err ↦ stop ∷ []
          | none ↦ one (put_expectation url (expectation_json e))
        ]

    -- What a phase is to do.
    unfoldable pub phase_plan : StackOptions → Services → Phase → List Task
    phase_plan opts s postgres_migrations =
        flat_map
          (λ (name, cfg).
            asked_plan (cfg.apply_migrations && non_empty cfg.migration_paths) s.postgres_map name
              (λ r.
                drop_plan cfg.drop_public_schema_before_migrate r.dsn
                ++ scripts_plan postgres_db r.dsn cfg.strict_path cfg.migration_paths))
          (out.range 0 opts.postgres)
    phase_plan opts s clickhouse_migrations =
        flat_map
          (λ (name, cfg).
            asked_plan (cfg.apply_migrations && non_empty cfg.migration_paths) s.clickhouse_map name
              (λ r. scripts_plan clickhouse_db r.dsn cfg.strict_path cfg.migration_paths))
          (out.range 1 opts.click_house)
    phase_plan opts s postgres_seeds =
        flat_map
          (λ (name, cfg).
            asked_plan (cfg.apply_seeds && non_empty cfg.seed_paths) s.postgres_map name (λ r.
              truncate_plan cfg.truncate_tables_before_seed r.dsn
              ++ scripts_plan postgres_db r.dsn cfg.strict_path cfg.seed_paths))
          (out.range 2 opts.postgres)
    phase_plan opts s clickhouse_seeds =
        flat_map
          (λ (name, cfg).
            asked_plan (cfg.apply_seeds && non_empty cfg.seed_paths) s.clickhouse_map name
              (λ r. scripts_plan clickhouse_db r.dsn cfg.strict_path cfg.seed_paths))
          (out.range 3 opts.click_house)
    phase_plan opts s redis_flush =
        flat_map
          (λ (name, cfg). asked_plan cfg.flush_before_test s.redis_map name (λ r. flush_plan r.url))
          (out.range 4 opts.redis)
    phase_plan opts s kafka_topics =
        flat_map
          (λ (name, cfg).
            asked_plan (cfg.create_topics && non_empty cfg.topics) s.kafka_map name
              (λ r. topics_plan r.brokers cfg.topics))
          (out.range 5 opts.kafka)
    phase_plan opts s mock_expectations =
        flat_map
          (λ (name, cfg). asked_plan true s.mock_map name (λ r.
            if str_eq r.provider mock_server
            then flat_map (expectation_plan r.base_url) cfg.expectations
            else []))
          (out.range 6 opts.http_mocks)
    phase_plan opts s localstack_scripts =
        flat_map
          (λ (name, cfg). asked_plan (non_empty cfg.init_scripts) s.local_map name (λ r.
            with_value (expand_scripts fs cfg.strict_path name cfg.init_scripts)
              (flat_map (bash_plan r.container))))
          (out.range 7 opts.local_stack)
