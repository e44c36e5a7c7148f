-- ===== src/Itestkit/Environment/Export.antt =====
-- itestkit/env.go: `ExportEnv`. The variables' names are code points.
use aeternixth_go_lib.Prelude.{
  ℕ, String, List, [], ◌∷◌, ◌++◌, Option, none, some, ◌≡◌, refl, arith, codes, codes_eq,
  codes_eq_iff, flat_map, if◌then◌else◌,
}
use aeternixth_go_lib.Itestkit.Environment.{env_fragment}
use aeternixth_go_lib.Itestkit.Services.Localstack.{LocalStackResource, join_commas}
use aeternixth_go_lib.Itestkit.Services.Postgres.{PostgresResource}
use aeternixth_go_lib.Itestkit.Services.Clickhouse.{ClickHouseResource}
use aeternixth_go_lib.Itestkit.Services.Redis.{RedisResource}
use aeternixth_go_lib.Itestkit.Services.Kafka.{KafkaResource}
use aeternixth_go_lib.Itestkit.Services.Mockserver.{HttpMockResource}
use aeternixth_go_lib.Itestkit.Setup.Phases.{Services}

abbrev pub Variables : Type 0
Variables = List (List ℕ × String)

-- `out[key] = val`
unfoldable pub set_variable : List ℕ → String → Variables → Variables
set_variable key val [] = (key, val) ∷ []
set_variable key val ((k, v) ∷ out) =
    if codes_eq k key then (k, val) ∷ out else (k, v) ∷ set_variable key val out

unfoldable pub read : List ℕ → Variables → Option String
read key [] = none
read key ((k, v) ∷ out) = if codes_eq k key then some v else read key out

unfoldable pub set_variables : Variables → Variables → Variables
unfolding set_variable
set_variables [] out = out
set_variables ((k, v) ∷ assignments) out = set_variables assignments (set_variable k v out)

module _ (unicode_upper : ℕ → ℕ) where
  abbrev pub variable : String → String → String → List ℕ
  variable kind name detail =
      codes kind ++ (env_fragment unicode_upper (codes name) ++ codes detail)

  -- The bodies of the six loops
  unfoldable pub postgres_variables : String × PostgresResource → Variables
  unfolding env_fragment
  postgres_variables (name, r) = (variable "POSTGRES_" name "_DSN", r.dsn) ∷ []

  unfoldable pub clickhouse_variables : String × ClickHouseResource → Variables
  unfolding env_fragment
  clickhouse_variables (name, r) =
      (variable "CLICKHOUSE_" name "_DSN", r.dsn)
      ∷ (variable "CLICKHOUSE_" name "_HTTP_DSN", r.http_dsn)
      ∷ []

  unfoldable pub redis_variables : String × RedisResource → Variables
  unfolding env_fragment
  redis_variables (name, r) =
      (variable "REDIS_" name "_ADDR", r.addr) ∷ (variable "REDIS_" name "_URL", r.url) ∷ []

  unfoldable pub kafka_variables : String × KafkaResource → Variables
  unfolding env_fragment join_commas
  kafka_variables (name, r) = (variable "KAFKA_" name "_BROKERS", join_commas r.brokers) ∷ []

  unfoldable pub mock_variables : String × HttpMockResource → Variables
  unfolding env_fragment
  mock_variables (name, r) = (variable "HTTPMOCK_" name "_BASE_URL", r.base_url) ∷ []

  unfoldable pub local_variables : String × LocalStackResource → Variables
  unfolding env_fragment
  local_variables (name, r) =
      (variable "LOCALSTACK_" name "_ENDPOINT", r.endpoint)
      ∷ (variable "LOCALSTACK_" name "_REGION", r.region)
      ∷ (variable "LOCALSTACK_" name "_ACCESS_KEY_ID", r.access_key_id)
      ∷ (variable "LOCALSTACK_" name "_SECRET_ACCESS_KEY", r.secret_access_key)
      ∷ []

  -- The assignments of the six loops, in their order.
  unfoldable pub assignments : Services → Variables
  unfolding postgres_variables clickhouse_variables redis_variables kafka_variables mock_variables
      local_variables flat_map
  assignments s =
      flat_map postgres_variables s.postgres_map
      ++ (flat_map clickhouse_variables s.clickhouse_map
          ++ (flat_map redis_variables s.redis_map
              ++ (flat_map kafka_variables s.kafka_map
                  ++ (flat_map mock_variables s.mock_map ++ flat_map local_variables s.local_map))))

  -- `ExportEnv`
  unfoldable pub export_env : Services → Variables
  unfolding assignments set_variables
  export_env s = set_variables (assignments s) []

-- What is assigned last to a variable, if anything.
abbrev pub last_of : List ℕ → Variables → Option String → Option String
last_of key [] before = before
last_of key ((k, v) ∷ later) before = last_of key later (if codes_eq k key then some v else before)

pub read-set_variable :
    (key written : List ℕ) (val : String) (out : Variables)
    → read key (set_variable written val out)
      ≡ (if codes_eq written key then some val else read key out)
unfolding read set_variable
read-set_variable key written val [] = refl
read-set_variable key written val ((k, v) ∷ out) = ground (
  arith,
  read-set_variable key written val out,
  codes_eq_iff k key,
  codes_eq_iff k written,
  codes_eq_iff written key,
)

read-set_variables :
    (key : List ℕ) (later out : Variables)
    → read key (set_variables later out) ≡ last_of key later (read key out)
unfolding set_variables
read-set_variables key [] out = refl
read-set_variables key ((k, v) ∷ later) out =
    rw (read-set_variables key later (set_variable k v out), read-set_variable key k v out) refl

-- A variable has what was assigned to it last.
pub read-export_env :
    (unicode_upper : ℕ → ℕ) (s : Services) (key : List ℕ)
    → read key (export_env unicode_upper s) ≡ last_of key (assignments unicode_upper s) none
unfolding export_env read
read-export_env unicode_upper s key = read-set_variables key (assignments unicode_upper s) []
