-- ===== src/Tests/Stacks.antt =====
-- itestkit at concrete options.
use aeternixth_go_lib.Prelude.{
  true, false, ◌==◌, [], ◌∷◌, none, some, ◌≡◌, ◌≢◌, ◌↔◌, refl, inl, inr, All,
}
use Prim.Native.String.{◌++◌}
use aeternixth_go_lib.Itestkit.Options.{StackOptions, RedisOptions, HttpMockOptions}
use aeternixth_go_lib.Itestkit.Validation.Names.{Named, IsMock}
use aeternixth_go_lib.Itestkit.Validation.Laws.{
  Configured, AllKept, validate_options_iff, apply_defaults_lem,
}
use aeternixth_go_lib.Itestkit.Validation.{validate_options, apply_defaults}
use aeternixth_go_lib.Itestkit.Docker.{Client, Docker}
use aeternixth_go_lib.Itestkit.Files.{FileSystem, not_exist}
use aeternixth_go_lib.Itestkit.Outside.{Outside}
use aeternixth_go_lib.Itestkit.Stack.{start_stack}
use aeternixth_go_lib.Itestkit.Stack.Laws.{Outcome, start_stack-Outcome}

abbrev cache : RedisOptions
cache = record {
  image = "";
  config_file = "";
  use_tls = true;
  flush_before_test = true;
  extra_env = [];
}

abbrev wire : HttpMockOptions
wire = record {
  provider = "wiremock";
  image = "";
  mapping_paths = [];
  file_paths = [];
  expectations = [];
  strict_path = false;
  extra_env = [];
}

abbrev pub options : StackOptions
options = record {
  project_name = "";
  postgres = [];
  click_house = [];
  redis = ("cache", cache) ∷ ("queue-1", cache) ∷ [];
  kafka = [];
  http_mocks = ("bank", wire) ∷ [];
  local_stack = [];
  network = record { enabled = false; name = "" };
  timeouts = record {
    startup_timeout = 0;
    migration_timeout = 5;
    seed_timeout = 0;
    topic_timeout = 0;
    cleanup_timeout = 7;
    http_mock_setup_timeout = 0;
    local_stack_init_timeout = 0;
  };
  debug = record {
    debug_enabled = false;
    keep_containers_on_failure = false;
    print_connection_info = false;
    print_container_logs = false;
    reuse_containers = false;
  };
}

validate_options_iff_example : (validate_options options ≡ none) ↔ (
    Configured options
    × All Named options.postgres
    × All Named options.click_house
    × All Named options.redis
    × All Named options.kafka
    × All IsMock options.http_mocks
    × All Named options.local_stack)
validate_options_iff_example = validate_options_iff options

apply_defaults_lem_example :
    (apply_defaults (apply_defaults options) ≡ apply_defaults options)
    × (validate_options (apply_defaults options) ≡ validate_options options)
    × ((apply_defaults options).project_name ≢ "")
    × ((apply_defaults options).network.enabled ≡ true)
    × AllKept options.timeouts (apply_defaults options).timeouts
apply_defaults_lem_example = apply_defaults_lem options

-- Docker answers every call, but the host of container 2 cannot be read.
abbrev pub client : Client
client = record {
  run = λ kind image customizers c. none;
  hands_back = λ kind image customizers c. true;
  network_removal = none;
  host = λ c. elim (c == 2) [ true ↦ inr "gone" | false ↦ inl "localhost" ];
  mapped_port = λ c port. inl "32768";
  brokers = λ c. inl ("localhost:9092" ∷ []);
  port_endpoint = λ c. inl "http://localhost:4566";
  abs = λ path. inl ("/" ++ path);
  query_escape = λ s. s;
  quote = λ s. s;
}

-- No path exists.
abbrev no_files : FileSystem
no_files = record {
  stat = λ p. not_exist;
  read_dir = λ p. inr "gone";
  read_file = λ p. inr "gone";
  walk_dir = λ p. inr "gone";
  unicode_lower = λ c. c;
}

-- The first call of the setup fails.
abbrev pub no_answer : Outside
no_answer = record {
  fails = λ h e. some "refused";
  controller = λ h. "localhost:9092";
  http_reply = λ h. (201, []);
  exit_code = λ h. (0, []);
  redis_url = λ url. none;
  http_request = λ url. none;
  range = λ n named. named;
}

abbrev nothing_yet : Docker
nothing_yet = record { started = 0; terminated = []; dropped = []; history = [] }

start_stack-Outcome_example :
    Outcome 0 none (start_stack client no_files no_answer none options nothing_yet)
start_stack-Outcome_example =
    start_stack-Outcome client no_files no_answer none options nothing_yet refl refl
