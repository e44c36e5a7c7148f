-- ===== src/Itestkit/Stack/Calls.antt =====
-- The calls that a start of a stack makes of databases, clients and containers (itestkit/stack.go).
use aeternixth_go_lib.Prelude.{
  ℕ, Bool, true, false, String, List, [], ◌∷◌, Option, none, some, flat_map, ◌≡◌, refl, sym, ap,
  ◌∙◌, ◌⊎◌, inl, inr, ◌++◌,
}
use aeternixth_go_lib.Itestkit.Options.{StackOptions}
use aeternixth_go_lib.Itestkit.Validation.{ValidationError, validate_options, apply_defaults}
use aeternixth_go_lib.Itestkit.Docker.{Client, Docker}
use aeternixth_go_lib.Itestkit.Files.{FileSystem}
use aeternixth_go_lib.Itestkit.Outside.{Outside, Failure, History}
use aeternixth_go_lib.Itestkit.Services.{start_all}
use aeternixth_go_lib.Itestkit.Services.Laws.{Started}
use aeternixth_go_lib.Itestkit.Services.Histories.{start_all-history}
use aeternixth_go_lib.Itestkit.Services.Starters.{
  postgres-Started, clickhouse-Started, redis-Started, kafka-Started, localstack-Started,
  mock-Started,
}
use aeternixth_go_lib.Itestkit.Services.Postgres.{start_postgres, start_one_postgres}
use aeternixth_go_lib.Itestkit.Services.Clickhouse.{start_clickhouse, start_one_clickhouse}
use aeternixth_go_lib.Itestkit.Services.Redis.{start_redis, start_one_redis}
use aeternixth_go_lib.Itestkit.Services.Kafka.{start_kafka, start_one_kafka}
use aeternixth_go_lib.Itestkit.Services.Localstack.{start_localstack, start_one_localstack}
use aeternixth_go_lib.Itestkit.Services.Mockserver.{start_http_mocks, start_one_mock}
use aeternixth_go_lib.Itestkit.Setup.Plan.{Task, perform}
use aeternixth_go_lib.Itestkit.Setup.Phases.{
  Services, Phase, phases, run_phase, phase_plan, postgres_migrations, clickhouse_migrations,
  postgres_seeds, clickhouse_seeds, redis_flush, kafka_topics, mock_expectations,
  localstack_scripts,
}
use aeternixth_go_lib.Itestkit.Stack.{
  Network, network_up, World, StartError, or_stop, after_phase, recorded, run_phases,
  start_services, then_phases, start_in_network, with_network, validated, start_stack, no_services,
}
use aeternixth_go_lib.Itestkit.Stack.Setup.{record_of, terminate_stack-history, run_phases-perform}

-- The calls so far are still `h`.
unfoldable Quiet : {A : Type 0} → History → A × Docker → Type 0
Quiet h x = x.1.history ≡ h

unfoldable Silent : History → (Services ⊎ StartError) × World → Type 0
Silent h x = x.1.0.history ≡ h

start_all-Quiet :
    {Cfg Res : Type 0} (container : Res → ℕ) (keep : Bool) (what : String)
    (start_one : String → Cfg → Docker → (Res ⊎ String) × Docker)
    → ((name : String) (cfg : Cfg) (d : Docker) → Started container d (start_one name cfg d))
    → (cfgs : List (String × Cfg)) (d : Docker) (h : History) → d.history ≡ h
    → Quiet h (start_all container keep what start_one cfgs [] d)
unfolding Quiet
start_all-Quiet container keep what start_one starts cfgs d h e =
    start_all-history container keep what start_one starts cfgs [] d h e

or_stop-Silent :
    {A : Type 0} (removal : Option String) (keep : Bool) (s : Services) (net : Network)
    (h : History) (x : (A ⊎ String) × Docker) (go : A → Docker → (Services ⊎ StartError) × World)
    → Quiet h x
    → ((a : A) (d : Docker) → d.history ≡ h → Silent h (go a d))
    → Silent h (or_stop removal keep s net x go)
unfolding Silent Quiet
or_stop-Silent removal keep s net h (inr err, d) go e g =
    ap (λ r. r.1) (terminate_stack-history removal keep s d net (StartError.start_failed err)) ∙ e
or_stop-Silent removal keep s net h (inl a, d) go e g = g a d e

silent :
    (s : Services) (d : Docker) (net : Network) (h : History)
    → d.history ≡ h
    → Silent h (inl s, (d, net))
unfolding Silent
silent s d net h e = e

-- A start that goes on has the services.
abbrev Keeps : Services → (Services ⊎ StartError) × World → Type 0
Keeps s (inl s', w) = s' ≡ s
Keeps s (inr err, w) = Unit

module _ (k : Client) (fs : FileSystem) (out : Outside) (keep : Bool) where
  -- What a whole setup is to do: first the schemas, then the seeds, then all else.
  abbrev pub planned : StackOptions → Services → List Task
  planned opts s =
      phase_plan fs out opts s postgres_migrations
      ++ (phase_plan fs out opts s clickhouse_migrations
          ++ (phase_plan fs out opts s postgres_seeds
              ++ (phase_plan fs out opts s clickhouse_seeds
                  ++ (phase_plan fs out opts s redis_flush
                      ++ (phase_plan fs out opts s kafka_topics
                          ++ (phase_plan fs out opts s mock_expectations
                              ++ (phase_plan fs out opts s localstack_scripts ++ [])))))))

  planned_lem :
      (opts : StackOptions) (s : Services)
      → flat_map (phase_plan fs out opts s) phases ≡ planned opts s
  unfolding flat_map
  planned_lem opts s = refl

  start_services-Silent :
      (opts : StackOptions) (net : Bool) (state : Network) (d : Docker)
      → Silent d.history (start_services k fs out keep opts net state d)
  unfolding start_services start_postgres start_clickhouse start_redis start_kafka start_http_mocks
      start_localstack
  start_services-Silent opts net state d =
      let pr = opts.project_name in
      or_stop-Silent k.network_removal keep no_services state d.history _ _
        (start_all-Quiet (λ r. r.container) keep "postgres" (start_one_postgres k pr net)
          (λ name cfg d. postgres-Started k pr fs net name d cfg) opts.postgres d d.history refl)
        (λ ps d1 e1.
          let s1 : Services = record no_services { postgres_map = ps } in
          or_stop-Silent k.network_removal keep s1 state d.history _ _
            (start_all-Quiet (λ r. r.container) keep "clickhouse" (start_one_clickhouse k pr net)
              (λ name cfg d. clickhouse-Started k pr fs net name d cfg) opts.click_house d1
              d.history e1)
            (λ cs d2 e2.
              let s2 : Services = record s1 { clickhouse_map = cs } in
              or_stop-Silent k.network_removal keep s2 state d.history _ _
                (start_all-Quiet (λ r. r.container) keep "redis" (start_one_redis k net)
                  (λ name cfg d. redis-Started k pr fs net name d cfg) opts.redis d2 d.history e2)
                (λ rs d3 e3.
                  let s3 : Services = record s2 { redis_map = rs } in
                  or_stop-Silent k.network_removal keep s3 state d.history _ _
                    (start_all-Quiet (λ r. r.container) keep "kafka" (start_one_kafka k pr net)
                      (λ name cfg d. kafka-Started k pr fs net name d cfg) opts.kafka d3 d.history
                      e3)
                    (λ ks d4 e4.
                      let s4 : Services = record s3 { kafka_map = ks } in
                      or_stop-Silent k.network_removal keep s4 state d.history _ _
                        (start_all-Quiet (λ r. r.container) keep "httpmock"
                          (start_one_mock k fs net)
                          (λ name cfg d. mock-Started k pr fs net name d cfg) opts.http_mocks d4
                          d.history e4)
                        (λ ms d5 e5.
                          let s5 : Services = record s4 { mock_map = ms } in
                          or_stop-Silent k.network_removal keep s5 state d.history _ _
                            (start_all-Quiet (λ r. r.container) keep "localstack"
                              (start_one_localstack k net)
                              (λ name cfg d. localstack-Started k pr fs net name d cfg)
                              opts.local_stack d5 d.history e5)
                            (λ ls d6 e6.
                              let s6 : Services = record s5 { local_map = ls } in
                              silent s6 d6 state d.history e6))))))

  -- The result of a start, where the calls so far were `h` and `begun` is the end of the six starts:
  -- the phases made the calls of the plans of the services that were started; an error may also
  -- come before them.
  abbrev pub Phased :
      StackOptions
      → History
      → (Services ⊎ StartError) × World
      → (Services ⊎ StartError) × World
      → Type 0
  Phased opts h begun (inl s, (d, net)) =
      (begun.0 ≡ inl s) × (perform out (planned opts s) h ≡ (true, d.history))
  Phased opts h begun (inr err, (d, net)) =
      (d.history ≡ h)
      ⊎ ((s : Services) × (begun.0 ≡ inl s) × (perform out (planned opts s) h ≡ (false, d.history)))

  same_services :
      (p : Phase) (s : Services) (d : Docker) (net : Network)
      (go : Docker → (Services ⊎ StartError) × World) (answer : (Unit {0} ⊎ Failure) × History)
      → ((h : History) → Keeps s (go (recorded d h)))
      → Keeps s (after_phase k fs out keep p s (d, net) go answer)
  same_services p s d net go (inr err, h) g = tt
  same_services p s d net go (inl _, h) g = g h

  run_phases-Keeps :
      (ps : List Phase) (opts : StackOptions) (s : Services) (d : Docker) (net : Network)
      → Keeps s (run_phases k fs out keep ps opts s (d, net))
  unfolding run_phases
  run_phases-Keeps [] opts s d net = refl
  run_phases-Keeps (p ∷ ps) opts s d net =
      same_services p s d net (λ d. run_phases k fs out keep ps opts s (d, net))
        (run_phase out fs opts s p d.history) (λ h. run_phases-Keeps ps opts s (recorded d h) net)

  phases-Phased :
      (opts : StackOptions) (s : Services) (h : History) (w : World)
      (x : (Services ⊎ StartError) × World)
      → record_of x ≡ perform out (planned opts s) h
      → Keeps s x
      → Phased opts h (inl s, w) x
  phases-Phased opts s h w (inl s', (d, net)) e same = rw same (refl, sym e)
  phases-Phased opts s h w (inr err, (d, net)) e same = inr (s, refl, sym e)

  then_phases-Phased :
      (opts : StackOptions) (h : History) (x : (Services ⊎ StartError) × World)
      → Silent h x
      → Phased opts h x (then_phases k fs out keep opts x)
  unfolding Silent
  then_phases-Phased opts h (inr err, (d, net)) e = inl e
  then_phases-Phased opts h (inl s, (d, net)) e =
      phases-Phased opts s h (d, net) _
        (run_phases-perform k fs out keep phases opts s d net
          ∙ ap (λ plan. perform out plan d.history) (planned_lem opts s)
          ∙ ap (perform out (planned opts s)) e)
        (run_phases-Keeps phases opts s d net)

  start_in_network-Phased :
      (opts : StackOptions) (net : Bool) (state : Network) (d : Docker)
      → Phased opts d.history
          (start_services k fs out keep opts net state d)
          (start_in_network k fs out keep opts net state d)
  unfolding start_in_network
  start_in_network-Phased opts net state d =
      then_phases-Phased opts d.history (start_services k fs out keep opts net state d)
        (start_services-Silent opts net state d)

  with_network-Phased :
      (create : Option String) (opts : StackOptions) (d : Docker)
      → Phased opts d.history
          (start_services k fs out keep opts true network_up d)
          (with_network k fs out keep create opts true d)
  with_network-Phased none opts d = start_in_network-Phased opts true network_up d
  with_network-Phased (some err) opts d = inl refl

  validated-Phased :
      (opts : StackOptions) (d : Docker) (begun x : (Services ⊎ StartError) × World)
      (verdict : Option ValidationError)
      → Phased opts d.history begun x
      → Phased opts d.history begun (validated d x verdict)
  validated-Phased opts d begun x none p = p
  validated-Phased opts d begun x (some err) p = inl refl

-- A start that succeeds has made exactly the calls of the plans of the services that were started,
-- and none of them failed: the PostgreSQL migrations, the ClickHouse migrations, the PostgreSQL
-- seeds, the ClickHouse seeds, the flushes, the topics, the expectations and the init scripts in
-- this order, the instances within each in any order of their map; one that fails has made no
-- call, or those of the plans of the started services up to the first that failed or was
-- impossible.
pub start_stack-Phased :
    (k : Client) (fs : FileSystem) (out : Outside) (create : Option String) (given : StackOptions)
    (d : Docker)
    → let keep = given.debug.keep_containers_on_failure in
      let opts = apply_defaults given in
      Phased k fs out keep opts d.history
        (start_services k fs out keep opts true network_up d)
        (start_stack k fs out create given d)
unfolding start_stack apply_defaults
start_stack-Phased k fs out create given d =
    let keep = given.debug.keep_containers_on_failure in
    let opts = apply_defaults given in
    validated-Phased k fs out keep opts d (start_services k fs out keep opts true network_up d) _
      (validate_options given) (with_network-Phased k fs out keep create opts d)
