-- ===== src/Itestkit/Stack.antt =====
-- itestkit/stack.go: the life of a stack, from the options to its cleanup. The deadlines of the
-- contexts are left out.
pub mod Laws
pub mod Setup
pub mod Calls
use Prim.Native.String.{◌++◌}
use aeternixth_go_lib.Prelude.{
  ℕ, Bool, true, false, String, List, [], ◌∷◌, Option, none, some, ◌⊎◌, inl, inr, if◌then◌else◌,
}
use aeternixth_go_lib.Itestkit.Options.{StackOptions}
use aeternixth_go_lib.Itestkit.Validation.{ValidationError, validate_options, apply_defaults}
use aeternixth_go_lib.Itestkit.Files.{FileSystem}
use aeternixth_go_lib.Itestkit.Outside.{Outside, Failure, History}
use aeternixth_go_lib.Itestkit.Setup.Phases.{Services, Phase, phases, run_phase}
use aeternixth_go_lib.Itestkit.Docker.{Client, Docker}
use aeternixth_go_lib.Itestkit.Services.{terminate_all}
use aeternixth_go_lib.Itestkit.Services.Postgres.{start_postgres}
use aeternixth_go_lib.Itestkit.Services.Clickhouse.{start_clickhouse}
use aeternixth_go_lib.Itestkit.Services.Redis.{start_redis}
use aeternixth_go_lib.Itestkit.Services.Kafka.{start_kafka}
use aeternixth_go_lib.Itestkit.Services.Localstack.{start_localstack}
use aeternixth_go_lib.Itestkit.Services.Mockserver.{start_http_mocks}

abbrev pub no_services : Services
no_services = record {
  postgres_map = [];
  clickhouse_map = [];
  redis_map = [];
  kafka_map = [];
  mock_map = [];
  local_map = [];
}

-- The network: none, there, or removed.
pub data Network : Type 0 where
  no_network network_up network_removed : Network

-- `net.Remove` with the error that it gives, after which the network is still there
abbrev pub remove_network : Option String → Network → Network
remove_network _ no_network = no_network
remove_network none network_up = network_removed
remove_network (some err) network_up = network_up
remove_network _ network_removed = network_removed

-- The containers and the network.
abbrev pub World : Type 0
World = Docker × Network

pub data StartError : Type 0 where
  invalid_options : ValidationError → StartError
  no_network_created : String → StartError
  start_failed : String → StartError
  phase_failed : Phase → Failure → StartError

-- The six terminations, in their order.
unfoldable pub terminate_services : Bool → Services → Docker → Docker
unfolding terminate_all
terminate_services keep s d =
    terminate_all (λ r. r.container) keep s.local_map
      (terminate_all (λ r. r.container) keep s.mock_map
        (terminate_all (λ r. r.container) keep s.kafka_map
          (terminate_all (λ r. r.container) keep s.redis_map
            (terminate_all (λ r. r.container) keep s.clickhouse_map
              (terminate_all (λ r. r.container) keep s.postgres_map d)))))

-- The closure `terminate` of `StartStack`; `removal` is the error of the network's removal, which
-- it ignores.
unfoldable pub terminate_stack : Option String → Bool → Services → World → World
unfolding terminate_services
terminate_stack removal keep s (d, net) =
    if keep then (d, net) else (terminate_services keep s d, remove_network removal net)

-- The stack's `Cleanup`; `removal` is the error of the network's removal.
unfoldable pub cleanup_stack : Bool → Option String → Services → World → Option String × World
unfolding terminate_services
cleanup_stack keep removal s (d, net) = (
  elim net [ no_network ↦ none | network_up ↦ removal | network_removed ↦ removal ],
  (terminate_services keep s d, remove_network removal net),
)

-- One start of `StartStack`: on an error the stack so far is terminated.
abbrev pub or_stop :
    {A B : Type 0}
    → Option String
    → Bool
    → Services
    → Network
    → (A ⊎ String) × Docker
    → (A → Docker → (B ⊎ StartError) × World)
    → (B ⊎ StartError) × World
or_stop removal keep s net (inr err, d) go =
    (inr (start_failed err), terminate_stack removal keep s (d, net))
or_stop removal keep s net (inl a, d) go = go a d

abbrev pub recorded : Docker → History → Docker
recorded d h = record d { history = h }

module _ (k : Client) (fs : FileSystem) (out : Outside) (keep : Bool) where
  -- What follows a phase: on an error the stack is terminated.
  abbrev pub after_phase :
      Phase
      → Services
      → World
      → (Docker → (Services ⊎ StartError) × World)
      → (Unit {0} ⊎ Failure) × History
      → (Services ⊎ StartError) × World
  after_phase p s (d, net) go (inr err, h) =
      (inr (phase_failed p err), terminate_stack k.network_removal keep s (recorded d h, net))
  after_phase p s (d, net) go (inl _, h) = go (recorded d h)

  -- The phases after the start, up to the first that fails.
  unfoldable pub run_phases :
      List Phase → StackOptions → Services → World → (Services ⊎ StartError) × World
  unfolding terminate_stack run_phase
  run_phases [] opts s w = (inl s, w)
  run_phases (p ∷ ps) opts s (d, net) =
      after_phase p s (d, net) (λ d. run_phases ps opts s (d, net))
        (run_phase out fs opts s p d.history)

  -- The six starts.
  unfoldable pub start_services :
      StackOptions → Bool → Network → Docker → (Services ⊎ StartError) × World
  unfolding terminate_stack start_postgres start_clickhouse start_redis start_kafka start_http_mocks
      start_localstack
  start_services opts net state d =
      let s0 = no_services in
      or_stop k.network_removal keep s0 state
        (start_postgres k opts.project_name net keep opts.postgres d)
        (λ ps d1.
          let s1 : Services = record s0 { postgres_map = ps } in
          or_stop k.network_removal keep s1 state
            (start_clickhouse k opts.project_name net keep opts.click_house d1)
            (λ cs d2.
              let s2 : Services = record s1 { clickhouse_map = cs } in
              or_stop k.network_removal keep s2 state (start_redis k net keep opts.redis d2)
                (λ rs d3.
                  let s3 : Services = record s2 { redis_map = rs } in
                  or_stop k.network_removal keep s3 state
                    (start_kafka k opts.project_name net keep opts.kafka d3)
                    (λ ks d4.
                      let s4 : Services = record s3 { kafka_map = ks } in
                      or_stop k.network_removal keep s4 state
                        (start_http_mocks k fs net keep opts.http_mocks d4)
                        (λ ms d5.
                          let s5 : Services = record s4 { mock_map = ms } in
                          or_stop k.network_removal keep s5 state
                            (start_localstack k net keep opts.local_stack d5)
                            (λ ls d6. (inl (record s5 { local_map = ls }), (d6, state))))))))

  abbrev then_phases :
      StackOptions → (Services ⊎ StartError) × World → (Services ⊎ StartError) × World
  then_phases opts (inr err, w) = (inr err, w)
  then_phases opts (inl s, w) = run_phases phases opts s w

  -- The part of `StartStack` after the network.
  unfoldable pub start_in_network :
      StackOptions → Bool → Network → Docker → (Services ⊎ StartError) × World
  unfolding start_services run_phases
  start_in_network opts net state d = then_phases opts (start_services opts net state d)

  -- The network, where the options ask for one; `create` is the error of its creation.
  abbrev pub with_network :
      Option String → StackOptions → Bool → Docker → (Services ⊎ StartError) × World
  with_network create opts false d = start_in_network opts false no_network d
  with_network none opts true d = start_in_network opts true network_up d
  with_network (some err) opts true d = (inr (no_network_created err), (d, no_network))

abbrev pub validated :
    Docker
    → (Services ⊎ StartError) × World
    → Option ValidationError
    → (Services ⊎ StartError) × World
validated d go none = go
validated d go (some err) = (inr (invalid_options err), (d, no_network))

-- `StartStack`
unfoldable pub start_stack :
    Client
    → FileSystem
    → Outside
    → Option String
    → StackOptions
    → Docker
    → (Services ⊎ StartError) × World
unfolding start_in_network validate_options apply_defaults
start_stack k fs out create given d =
    let opts = apply_defaults given in
    validated d
      (with_network k fs out opts.debug.keep_containers_on_failure create opts opts.network.enabled
        d)
      (validate_options given)
