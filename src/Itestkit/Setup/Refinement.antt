-- ===== src/Itestkit/Setup/Refinement.antt =====
-- Each phase of `StartStack` follows its plan.
use Prim.Native.String.{◌++◌ as text_append}
use aeternixth_go_lib.Prelude.{
  ℕ, Bool, true, false, ◌||◌, not, leb, String, List, [], ◌∷◌, codes, if◌then◌else◌, flat_map,
  str_eq, refl, arith, ◌==◌,
}
use aeternixth_go_lib.Itestkit.Options.{StackOptions, HttpExpectation, KafkaTopic, mock_server}
use aeternixth_go_lib.Itestkit.Files.{FileSystem}
use aeternixth_go_lib.Itestkit.Setup.Sql.{
  non_empty, exec_postgres_file, exec_clickhouse_file, apply_postgres_migrations,
  apply_postgres_seeds, apply_clickhouse_migrations, apply_clickhouse_seeds,
}
use aeternixth_go_lib.Itestkit.Setup.Clients.{
  redis_flush_all, flush_all_redis, create_kafka_topics, create_all_kafka_topics, post_expectation,
  apply_expectations, topic_specs, to_controller,
}
use aeternixth_go_lib.Itestkit.Setup.Localstack.{
  exec_script, script_label, from_result, from_answer, run_init_scripts, expand_scripts,
}
use aeternixth_go_lib.Itestkit.Setup.Plan.{
  Task, does, one, Follows, call_fails, perform, pure-Follows, fail-Follows, or_wrap-Follows,
  then-Follows, for_each-Follows, value-Follows, checked-Follows,
}
use aeternixth_go_lib.Itestkit.Setup.Laws.{
  choice-Follows, asked-Follows, wrapped_call, drop-Follows, truncate-Follows, files_run-Follows,
  exec_postgres_file-Follows, exec_clickhouse_file-Follows,
}
use aeternixth_go_lib.Itestkit.Setup.Phases.{
  Services, Phase, postgres_migrations, clickhouse_migrations, postgres_seeds, clickhouse_seeds,
  redis_flush, kafka_topics, mock_expectations, localstack_scripts, run_phase, phase_plan,
  topics_plan, flush_plan, expectation_plan, bash_plan,
}
use aeternixth_go_lib.Itestkit.Outside.{
  Outside, postgres_db, clickhouse_db, flush_redis, dial_kafka, ask_controller, create_topics,
  put_expectation, copy_file, exec_file, Failure, outside, message, Act, pure, ◌>>◌, or_wrap, call,
  for_each,
}

module _ (out : Outside) (fs : FileSystem) where
  flush-Follows : (url : String) → Follows out (redis_flush_all out url) (flush_plan fs out url)
  unfolding redis_flush_all call_fails
  flush-Follows url =
      choice-Follows out (out.redis_url url) _ _ _ _
        (λ err. fail-Follows out (Failure.wrap (codes "parse redis url") (outside err)))
        (wrapped_call out _ (flush_redis url) (λ h. refl))

  to_controller-Follows :
      (label : String → List ℕ) (m : Act (Unit {0})) (p : List Task)
      → Follows out m p
      → Follows out
          (to_controller out (λ a. or_wrap (label a) (call out (dial_kafka a)) >> m))
          (does (λ h. dial_kafka (out.controller h)) ∷ p)
  unfolding call_fails perform
  to_controller-Follows label m p f h =
      then-Follows out _ m (one (dial_kafka (out.controller h))) p
        (wrapped_call out (label (out.controller h)) (dial_kafka (out.controller h)) (λ h'. refl)) f
        h

  topics-Follows :
      (brokers : List String) (topics : List KafkaTopic)
      → Follows out (create_kafka_topics out brokers topics) (topics_plan fs out brokers topics)
  unfolding create_kafka_topics call_fails
  topics-Follows [] topics = fail-Follows out (message (codes "no brokers provided"))
  topics-Follows (b ∷ brokers) [] = pure-Follows out
  topics-Follows (b ∷ brokers) (t ∷ topics) =
      then-Follows out _ _ _ _
        (then-Follows out _ _ _ _ (wrapped_call out _ (dial_kafka b) (λ h. refl))
          (wrapped_call out _ (ask_controller b) (λ h. refl)))
        (to_controller-Follows (λ a. codes (text_append "dial kafka controller " a)) _ _
          (wrapped_call out _ (create_topics (topic_specs (t ∷ topics))) (λ h. refl)))

  expectation-Follows :
      (base_url : String) (e : HttpExpectation)
      → Follows out (post_expectation out base_url e) (expectation_plan fs out base_url e)
  unfolding post_expectation call_fails
  expectation-Follows base_url e =
      choice-Follows out (out.http_request _) _ _ _ _
        (λ err. fail-Follows out (Failure.wrap (codes "build request") (outside err)))
        (checked-Follows out _ (put_expectation _ _) _ (λ h. leb 300 (out.http_reply h).0)
          (λ h. ground arith) (λ h. refl))

  mock-Follows :
      (label : HttpExpectation → List ℕ) (is_mock : Bool) (base_url : String)
      (expectations : List HttpExpectation)
      → Follows out
          (if not is_mock || not (non_empty expectations)
            then pure tt
            else for_each (λ e. or_wrap (label e) (post_expectation out base_url e)) expectations)
          (if is_mock then flat_map (expectation_plan fs out base_url) expectations else [])
  unfolding flat_map
  mock-Follows label false base_url es = pure-Follows out
  mock-Follows label true base_url [] = pure-Follows out
  mock-Follows label true base_url (e ∷ es) =
      for_each-Follows out _ _ (e ∷ es)
        (λ e. or_wrap-Follows out _ _ _ (expectation-Follows base_url e))

  script-Follows :
      (container : ℕ) (name : String) (script : List ℕ)
      → Follows out (exec_script fs out container name script) (bash_plan fs container script)
  unfolding exec_script call_fails
  script-Follows container name script =
      value-Follows out (fs.read_file script)
        (λ r. or_wrap (script_label name script) (from_answer r)) _ _ (λ a. refl)
        (λ err. (Failure.wrap (script_label name script) (outside err), refl))
        (λ content.
          then-Follows out _ _ _ _ (wrapped_call out _ (copy_file container content _) (λ h. refl))
            (checked-Follows out _ (exec_file container _) _ (λ h. not ((out.exit_code h).0 == 0))
              (λ h. ground arith) (λ h. refl)))

  -- Each phase makes the calls of its plan in their order up to the first that fails, if any, and
  -- it ends in an error exactly where one fails or a step is impossible.
  pub run_phase-Follows :
      (opts : StackOptions) (s : Services) (p : Phase)
      → Follows out (run_phase out fs opts s p) (phase_plan fs out opts s p)
  unfolding run_phase phase_plan apply_postgres_migrations apply_postgres_seeds
      apply_clickhouse_migrations apply_clickhouse_seeds flush_all_redis create_all_kafka_topics
      apply_expectations run_init_scripts
  run_phase-Follows opts s postgres_migrations =
      for_each-Follows out _ _ (out.range 0 opts.postgres) (λ (name, cfg).
        asked-Follows out _ s.postgres_map name _ _ (λ r.
          then-Follows out _ _ _ _
            (drop-Follows out fs cfg.drop_public_schema_before_migrate _ r.dsn)
            (files_run-Follows out fs postgres_db r.dsn (exec_postgres_file out fs r.dsn)
              "postgres[" name "] collect migrations" "] migration file " cfg.strict_path
              cfg.migration_paths (exec_postgres_file-Follows out fs r.dsn))))
  run_phase-Follows opts s clickhouse_migrations =
      for_each-Follows out _ _ (out.range 1 opts.click_house) (λ (name, cfg).
        asked-Follows out _ s.clickhouse_map name _ _ (λ r.
          files_run-Follows out fs clickhouse_db r.dsn (exec_clickhouse_file out fs r.dsn)
            "clickhouse[" name "] collect migrations" "] migration file " cfg.strict_path
            cfg.migration_paths (exec_clickhouse_file-Follows out fs r.dsn)))
  run_phase-Follows opts s postgres_seeds =
      for_each-Follows out _ _ (out.range 2 opts.postgres) (λ (name, cfg).
        asked-Follows out _ s.postgres_map name _ _ (λ r.
          then-Follows out _ _ _ _ (truncate-Follows out fs _ cfg.truncate_tables_before_seed r.dsn)
            (files_run-Follows out fs postgres_db r.dsn (exec_postgres_file out fs r.dsn)
              "postgres[" name "] collect seeds" "] seed file " cfg.strict_path cfg.seed_paths
              (exec_postgres_file-Follows out fs r.dsn))))
  run_phase-Follows opts s clickhouse_seeds =
      for_each-Follows out _ _ (out.range 3 opts.click_house) (λ (name, cfg).
        asked-Follows out _ s.clickhouse_map name _ _ (λ r.
          files_run-Follows out fs clickhouse_db r.dsn (exec_clickhouse_file out fs r.dsn)
            "clickhouse[" name "] collect seeds" "] seed file " cfg.strict_path cfg.seed_paths
            (exec_clickhouse_file-Follows out fs r.dsn)))
  run_phase-Follows opts s redis_flush =
      for_each-Follows out _ _ (out.range 4 opts.redis) (λ (name, cfg).
        asked-Follows out _ s.redis_map name _ _
          (λ r. or_wrap-Follows out _ _ _ (flush-Follows r.url)))
  run_phase-Follows opts s kafka_topics =
      for_each-Follows out _ _ (out.range 5 opts.kafka) (λ (name, cfg).
        asked-Follows out _ s.kafka_map name _ _
          (λ r. or_wrap-Follows out _ _ _ (topics-Follows r.brokers cfg.topics)))
  run_phase-Follows opts s mock_expectations =
      for_each-Follows out _ _ (out.range 6 opts.http_mocks) (λ (name, cfg).
        asked-Follows out true s.mock_map name _ _
          (λ r. mock-Follows _ (str_eq r.provider mock_server) r.base_url cfg.expectations))
  run_phase-Follows opts s localstack_scripts =
      for_each-Follows out _ _ (out.range 7 opts.local_stack) (λ (name, cfg).
        asked-Follows out _ s.local_map name _ _ (λ r.
          value-Follows out (expand_scripts fs cfg.strict_path name cfg.init_scripts) from_result _
            _ (λ a. refl) (λ e. (e, refl))
            (λ scripts. for_each-Follows out _ _ scripts (script-Follows r.container name))))
