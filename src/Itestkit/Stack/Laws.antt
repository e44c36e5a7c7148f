-- ===== src/Itestkit/Stack/Laws.antt =====
-- What a start of a stack leaves behind, and its cleanup (itestkit/stack.go).
use aeternixth_go_lib.Prelude.{
  ℕ, Bool, true, false, ◌||◌, String, List, [], ◌∷◌, Option, none, some, ◌≡◌, ◌≢◌, ◌⊎◌, inl, inr,
  arith,
}
use aeternixth_go_lib.Itestkit.Options.{StackOptions}
use aeternixth_go_lib.Itestkit.Validation.{validate_options, apply_defaults, ValidationError}
use aeternixth_go_lib.Itestkit.Docker.{Client, Docker}
use aeternixth_go_lib.Itestkit.Services.Laws.{
  holds, Owned, Left, AllStarted, terminate_all-Owned, start_all-AllStarted,
}
use aeternixth_go_lib.Itestkit.Services.Starters.{
  postgres-Started, clickhouse-Started, redis-Started, kafka-Started, localstack-Started,
  mock-Started,
}
use aeternixth_go_lib.Itestkit.Services.Postgres.{start_postgres, start_one_postgres}
use aeternixth_go_lib.Itestkit.Services.Clickhouse.{start_clickhouse, start_one_clickhouse}
use aeternixth_go_lib.Itestkit.Services.Redis.{start_redis, start_one_redis}
use aeternixth_go_lib.Itestkit.Services.Kafka.{start_kafka, start_one_kafka}
use aeternixth_go_lib.Itestkit.Services.Localstack.{start_localstack, start_one_localstack}
use aeternixth_go_lib.Itestkit.Services.Mockserver.{start_http_mocks, start_one_mock}
use aeternixth_go_lib.Itestkit.Files.{FileSystem}
use aeternixth_go_lib.Itestkit.Outside.{Outside, Failure, History}
use aeternixth_go_lib.Itestkit.Setup.Phases.{Services, Phase, phases, run_phase}
use aeternixth_go_lib.Itestkit.Stack.{
  after_phase, recorded, no_services, Network, no_network, network_up, network_removed,
  remove_network, World, StartError, terminate_services, terminate_stack, cleanup_stack, or_stop,
  run_phases, start_services, start_in_network, with_network, validated, start_stack, then_phases,
}

-- A resource of the stack has the container.
abbrev pub held_by : Services → ℕ → Bool
held_by s i =
    holds (λ r. r.container) s.postgres_map i
    || (holds (λ r. r.container) s.clickhouse_map i
        || (holds (λ r. r.container) s.redis_map i
            || (holds (λ r. r.container) s.kafka_map i
                || (holds (λ r. r.container) s.mock_map i
                    || (holds (λ r. r.container) s.local_map i || false)))))

-- Every container started from number `n` on was asked to terminate, but at most the given one,
-- which `Run` had handed back beside an error; and the network is gone if its removal succeeds.
abbrev pub LeavesNothing : ℕ → Option ℕ → Option String → World → Type 0
LeavesNothing n lost removal (d, net) =
    Owned n lost (λ i. false) d × (removal ≡ none → net ≢ network_up)

-- A failed start leaves nothing but that container; after another one the stack holds what was
-- started, nothing was dropped, and its cleanup leaves nothing.
abbrev pub Outcome : ℕ → Option String → (Services ⊎ StartError) × World → Type 0
Outcome n removal (inr err, w) = (lost : Option ℕ) × LeavesNothing n lost removal w
Outcome n removal (inl s, (d, net)) =
    Owned n none (held_by s) d
    × ((removal : Option String)
        → LeavesNothing n none removal (cleanup_stack false removal s (d, net)).1)

removed :
    (removal : Option String) (net : Network)
    → removal ≡ none
    → remove_network removal net ≢ network_up
removed removal no_network e = cc
removed none network_up e = cc
removed (some err) network_up e = cc
removed removal network_removed e = cc

same_held :
    (n : ℕ) (p q : ℕ → Bool) (d : Docker)
    → ((i : ℕ) → p i ≡ q i)
    → Owned n none p d
    → Owned n none q d
same_held n p q d h (o, e) = (λ i a b. ground (arith, h i, o i a b), e)

terminate_services-Owned :
    (n : ℕ) (lost : Option ℕ) (s : Services) (d : Docker)
    → Owned n lost (held_by s) d
    → Owned n lost (λ i. false) (terminate_services false s d)
unfolding terminate_services
terminate_services-Owned n lost s d o =
    terminate_all-Owned (λ r. r.container) n lost _ s.local_map _
      (terminate_all-Owned (λ r. r.container) n lost _ s.mock_map _
        (terminate_all-Owned (λ r. r.container) n lost _ s.kafka_map _
          (terminate_all-Owned (λ r. r.container) n lost _ s.redis_map _
            (terminate_all-Owned (λ r. r.container) n lost _ s.clickhouse_map _
              (terminate_all-Owned (λ r. r.container) n lost _ s.postgres_map _ o)))))

terminate_stack-LeavesNothing :
    (n : ℕ) (removal : Option String) (s : Services) (d : Docker) (net : Network)
    → Left n (held_by s) d
    → (lost : Option ℕ) × LeavesNothing n lost removal (terminate_stack removal false s (d, net))
unfolding terminate_stack
terminate_stack-LeavesNothing n removal s d net (lost, o) =
    (lost, (terminate_services-Owned n lost s d o, removed removal net))

started_outcome :
    (n : ℕ) (removal : Option String) (s : Services) (d : Docker) (net : Network)
    → Owned n none (held_by s) d
    → Outcome n removal (inl s, (d, net))
unfolding cleanup_stack
started_outcome n removal s d net o =
    (o, λ removal. (terminate_services-Owned n none s d o, removed removal net))

nothing_started : (d : Docker) → d.dropped ≡ [] → Owned d.started none (λ i. false) d
nothing_started d e = (λ i h b. ground arith, e)

or_stop-Outcome :
    {Res : Type 0} (container : Res → ℕ) (n : ℕ) (removal : Option String) (s : Services)
    (net : Network) (x : (List (String × Res) ⊎ String) × Docker)
    (go : List (String × Res) → Docker → (Services ⊎ StartError) × World)
    → AllStarted container n (held_by s) x
    → ((out : List (String × Res)) (d : Docker)
        → Owned n none (λ i. holds container out i || held_by s i) d
        → Outcome n removal (go out d))
    → Outcome n removal (or_stop removal false s net x go)
or_stop-Outcome container n removal s net (inr err, d) go a h =
    terminate_stack-LeavesNothing n removal s d net a
or_stop-Outcome container n removal s net (inl out, d) go a h = h out d a

module _ (k : Client) (fs : FileSystem) (out : Outside) where
  after_phase-Outcome :
      (n : ℕ) (p : Phase) (s : Services) (d : Docker) (net : Network)
      (go : Docker → (Services ⊎ StartError) × World) (answer : (Unit {0} ⊎ Failure) × History)
      → Owned n none (held_by s) d
      → ((h : History) → Outcome n k.network_removal (go (recorded d h)))
      → Outcome n k.network_removal (after_phase k fs out false p s (d, net) go answer)
  after_phase-Outcome n p s d net go (inr err, h) o g =
      terminate_stack-LeavesNothing n k.network_removal s (recorded d h) net (none, o)
  after_phase-Outcome n p s d net go (inl _, h) o g = g h

  run_phases-Outcome :
      (n : ℕ) (ps : List Phase) (opts : StackOptions) (s : Services) (d : Docker) (net : Network)
      → Owned n none (held_by s) d
      → Outcome n k.network_removal (run_phases k fs out false ps opts s (d, net))
  unfolding run_phases
  run_phases-Outcome n [] opts s d net o = started_outcome n k.network_removal s d net o
  run_phases-Outcome n (p ∷ ps) opts s d net o =
      after_phase-Outcome n p s d net (λ d. run_phases k fs out false ps opts s (d, net))
        (run_phase out fs opts s p d.history) o
        (λ h. run_phases-Outcome n ps opts s (recorded d h) net o)

  then_phases-Outcome :
      (n : ℕ) (opts : StackOptions) (x : (Services ⊎ StartError) × World)
      → Outcome n k.network_removal x
      → Outcome n k.network_removal (then_phases k fs out false opts x)
  then_phases-Outcome n opts (inr err, w) o = o
  then_phases-Outcome n opts (inl s, (d, net)) (o, _) = run_phases-Outcome n phases opts s d net o

  start_services-Outcome :
      (n : ℕ) (opts : StackOptions) (net : Bool) (state : Network) (d : Docker)
      → Owned n none (λ i. false) d
      → Outcome n k.network_removal (start_services k fs out false opts net state d)
  unfolding start_services start_postgres start_clickhouse start_redis start_kafka start_http_mocks
      start_localstack
  start_services-Outcome n opts net state d o =
      let pr = opts.project_name in
      or_stop-Outcome (λ r. r.container) n k.network_removal no_services state _ _
        (start_all-AllStarted (λ r. r.container) "postgres" (start_one_postgres k pr net)
          (λ name cfg d. postgres-Started k pr fs net name d cfg) n _ opts.postgres [] d o)
        (λ ps d1 o1.
          let s1 : Services = record no_services { postgres_map = ps } in
          or_stop-Outcome (λ r. r.container) n k.network_removal s1 state _ _
            (start_all-AllStarted (λ r. r.container) "clickhouse" (start_one_clickhouse k pr net)
              (λ name cfg d. clickhouse-Started k pr fs net name d cfg) n (held_by s1)
              opts.click_house [] d1 o1)
            (λ cs d2 o2.
              let s2 : Services = record s1 { clickhouse_map = cs } in
              or_stop-Outcome (λ r. r.container) n k.network_removal s2 state _ _
                (start_all-AllStarted (λ r. r.container) "redis" (start_one_redis k net)
                  (λ name cfg d. redis-Started k pr fs net name d cfg) n (held_by s2) opts.redis []
                  d2 (same_held n _ (held_by s2) d2 (λ i. ground arith) o2))
                (λ rs d3 o3.
                  let s3 : Services = record s2 { redis_map = rs } in
                  or_stop-Outcome (λ r. r.container) n k.network_removal s3 state _ _
                    (start_all-AllStarted (λ r. r.container) "kafka" (start_one_kafka k pr net)
                      (λ name cfg d. kafka-Started k pr fs net name d cfg) n (held_by s3) opts.kafka
                      [] d3 (same_held n _ (held_by s3) d3 (λ i. ground arith) o3))
                    (λ ks d4 o4.
                      let s4 : Services = record s3 { kafka_map = ks } in
                      or_stop-Outcome (λ r. r.container) n k.network_removal s4 state _ _
                        (start_all-AllStarted (λ r. r.container) "httpmock"
                          (start_one_mock k fs net)
                          (λ name cfg d. mock-Started k pr fs net name d cfg) n (held_by s4)
                          opts.http_mocks [] d4
                          (same_held n _ (held_by s4) d4 (λ i. ground arith) o4))
                        (λ ms d5 o5.
                          let s5 : Services = record s4 { mock_map = ms } in
                          or_stop-Outcome (λ r. r.container) n k.network_removal s5 state _ _
                            (start_all-AllStarted (λ r. r.container) "localstack"
                              (start_one_localstack k net)
                              (λ name cfg d. localstack-Started k pr fs net name d cfg) n
                              (held_by s5) opts.local_stack [] d5
                              (same_held n _ (held_by s5) d5 (λ i. ground arith) o5))
                            (λ ls d6 o6.
                              let s6 : Services = record s5 { local_map = ls } in
                              started_outcome n k.network_removal s6 d6 state
                                (same_held n _ (held_by s6) d6 (λ i. ground arith) o6)))))))

  start_in_network-Outcome :
      (n : ℕ) (opts : StackOptions) (net : Bool) (state : Network) (d : Docker)
      → Owned n none (λ i. false) d
      → Outcome n k.network_removal (start_in_network k fs out false opts net state d)
  unfolding start_in_network
  start_in_network-Outcome n opts net state d o =
      then_phases-Outcome n opts (start_services k fs out false opts net state d)
        (start_services-Outcome n opts net state d o)

  with_network-Outcome :
      (keep : Bool) (create : Option String) (opts : StackOptions) (enabled : Bool) (d : Docker)
      → keep ≡ false
      → d.dropped ≡ []
      → Outcome d.started k.network_removal (with_network k fs out keep create opts enabled d)
  with_network-Outcome true create opts enabled d e z = cc
  with_network-Outcome false create opts false d e z =
      start_in_network-Outcome d.started opts false no_network d (nothing_started d z)
  with_network-Outcome false none opts true d e z =
      start_in_network-Outcome d.started opts true network_up d (nothing_started d z)
  with_network-Outcome false (some err) opts true d e z =
      (none, (nothing_started d z, removed _ no_network))

  validated-Outcome :
      (d : Docker) (x : (Services ⊎ StartError) × World) (verdict : Option ValidationError)
      → d.dropped ≡ []
      → Outcome d.started k.network_removal x
      → Outcome d.started k.network_removal (validated d x verdict)
  validated-Outcome d x none z o = o
  validated-Outcome d x (some err) z o = (none, (nothing_started d z, removed _ no_network))

  -- Without KeepContainersOnFailure, and with nothing dropped before: a start that fails, wherever
  -- it fails, has asked every container that it had created to terminate, but at most one, which
  -- Run had handed back beside its error; after one that succeeds the stack's resources hold every
  -- container that it created, less those asked to terminate, and the cleanup asks them all. In
  -- both cases no network is up if its removal succeeds.
  pub start_stack-Outcome :
      (create : Option String) (opts : StackOptions) (d : Docker)
      → opts.debug.keep_containers_on_failure ≡ false
      → d.dropped ≡ []
      → Outcome d.started k.network_removal (start_stack k fs out create opts d)
  unfolding start_stack apply_defaults
  start_stack-Outcome create opts d keep z = validated-Outcome d _ (validate_options opts) z (
      with_network-Outcome opts.debug.keep_containers_on_failure create (apply_defaults opts) true d
        keep z)
