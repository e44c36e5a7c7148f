-- ===== src/Itestkit/Validation.antt =====
-- itestkit/validation.go: what options a stack can be started with, and the defaults.
pub mod Names
pub mod Laws
use aeternixth_go_lib.Prelude.{
  ℕ, ◌+◌, Bool, true, false, ◌&&◌, ◌||◌, ◌==◌, leb, String, List, [], ◌∷◌, Option, none, some, ◌≡◌,
  ◌≢◌, ◌≤◌, ◌↔◌, refl, arith, if◌then◌else◌, str_eq, eq_iff, codes, length, ◌*◌, ◌⊎◌, All, or_else,
}
use aeternixth_go_lib.Prelude.Regex.{
  Regex, seq, star, class, match_string, match_string_iff, Language,
}
use aeternixth_go_lib.Prelude.Regex.Classes.{
  Within, first_of_class, star_class-Within, Within-star_class,
}
use aeternixth_go_lib.Itestkit.Options.{
  StackOptions, HttpMockOptions, HttpExpectation, mock_server, wire_mock,
}

-- What `validateOptions` wraps, with the kind of the service and its name.
pub data ValidationError : Type 0 where
  no_service_configured : ValidationError
  invalid_instance_name : String → String → ValidationError
  invalid_http_mock_provider : String → String → ValidationError
  wire_mock_expectations : String → ValidationError

abbrev pub is_lower : ℕ → Bool
is_lower c = leb b'a' c && leb c b'z'

-- `[a-z0-9_-]`
abbrev pub is_name_rune : ℕ → Bool
is_name_rune c = is_lower c || leb b'0' c && leb c b'9' || c == b'_' || c == b'-'

-- `instanceNameRegex`: `^[a-z][a-z0-9_-]*$`
abbrev pub instance_name_regex : Regex
instance_name_regex = seq (class is_lower) (star (class is_name_rune))

unfoldable pub name_matches : List ℕ → Bool
unfolding match_string
name_matches s = match_string instance_name_regex s

-- The loop over one map that checks names only.
unfoldable pub check_names : {A : Type 0} → String → List (String × A) → Option ValidationError
unfolding name_matches
check_names kind [] = none
check_names kind ((name, cfg) ∷ rest) =
    if name_matches (codes name)
    then check_names kind rest
    else some (invalid_instance_name kind name)

abbrev pub provider_of : HttpMockOptions → String
provider_of cfg = if str_eq cfg.provider "" then mock_server else cfg.provider

abbrev pub no_expectations : HttpMockOptions → Bool
no_expectations cfg = elim cfg.expectations [ [] ↦ true | e ∷ es ↦ false ]

-- The body of the loop over `HTTPMocks`.
unfoldable pub check_mock : String → HttpMockOptions → Option ValidationError
unfolding name_matches
check_mock name cfg =
    if name_matches (codes name)
    then if str_eq (provider_of cfg) mock_server || str_eq (provider_of cfg) wire_mock
      then if str_eq (provider_of cfg) wire_mock
        then if no_expectations cfg then none else some (wire_mock_expectations name)
        else none
      else some (invalid_http_mock_provider name (provider_of cfg))
    else some (invalid_instance_name "httpmock" name)

unfoldable pub check_mocks : List (String × HttpMockOptions) → Option ValidationError
check_mocks [] = none
check_mocks ((name, cfg) ∷ rest) = elim (check_mock name cfg) [
  | some err ↦ some err
  | none ↦ check_mocks rest
]

abbrev pub total : StackOptions → ℕ
total opts =
    length opts.postgres
    + length opts.click_house
    + length opts.redis
    + length opts.kafka
    + length opts.http_mocks
    + length opts.local_stack

unfoldable pub validate_options : StackOptions → Option ValidationError
unfolding check_names check_mocks
validate_options opts =
    if total opts == 0
    then some no_service_configured
    else or_else (check_names "postgres" opts.postgres) (
        or_else (check_names "clickhouse" opts.click_house) (
          or_else (check_names "redis" opts.redis) (
            or_else (check_names "kafka" opts.kafka)
              (or_else (check_mocks opts.http_mocks) (check_names "localstack" opts.local_stack)))))

abbrev pub second : ℕ
second = 1000000000

abbrev pub or_default : ℕ → ℕ → ℕ
or_default t d = if t == 0 then d else t

-- `applyDefaults`
unfoldable pub apply_defaults : StackOptions → StackOptions
apply_defaults opts = record opts {
  project_name = if str_eq opts.project_name "" then "itest" else opts.project_name;
  network = record { enabled = true; name = opts.network.name };
  timeouts = record {
    startup_timeout = or_default opts.timeouts.startup_timeout (120 * second);
    migration_timeout = or_default opts.timeouts.migration_timeout (60 * second);
    seed_timeout = or_default opts.timeouts.seed_timeout (60 * second);
    topic_timeout = or_default opts.timeouts.topic_timeout (30 * second);
    cleanup_timeout = or_default opts.timeouts.cleanup_timeout (30 * second);
    http_mock_setup_timeout = or_default opts.timeouts.http_mock_setup_timeout (30 * second);
    local_stack_init_timeout = or_default opts.timeouts.local_stack_init_timeout (60 * second);
  };
}
