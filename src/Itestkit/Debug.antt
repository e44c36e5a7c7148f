-- ===== src/Itestkit/Debug.antt =====
-- itestkit/debug.go and logger.go: the connection information, and where it is printed. Go's package
-- `net/url` is the parameter `UrlLibrary`.
pub mod Laws
use Prim.Native.String.{◌++◌}
use aeternixth_go_lib.Prelude.{
  ℕ, String, List, [], ◌∷◌, Option, none, some, Bool, true, false, ◌≡◌, ◌⊎◌, inl, inr, refl,
  flat_map, ap, sym, ◌∙◌,
}
use aeternixth_go_lib.Prelude
use aeternixth_go_lib.Itestkit.Services.Postgres.{PostgresResource}
use aeternixth_go_lib.Itestkit.Services.Clickhouse.{ClickHouseResource}
use aeternixth_go_lib.Itestkit.Services.Redis.{RedisResource}
use aeternixth_go_lib.Itestkit.Services.Kafka.{KafkaResource}
use aeternixth_go_lib.Itestkit.Services.Mockserver.{HttpMockResource}
use aeternixth_go_lib.Itestkit.Services.Localstack.{LocalStackResource, join_commas}
use aeternixth_go_lib.Itestkit.Setup.Phases.{Services}

-- A user with a password, if one is set.
pub record UrlUser : Type 0 where
  pub username : String
  pub pass : Option String

-- `url.URL`: its user, if it has one, and all its other parts.
pub record Url (Parts : Type 0) : Type 0 where
  pub user : Option UrlUser
  pub parts : Parts

pub record UrlLibrary : Type 1 where
  pub Parts : Type 0
  pub parse : String → Option (Url Parts)
  pub render : Url Parts → String

-- `resolveLogger`: the user's logger, the test, or none.
pub data Logger (User Test : Type 0) : Type 0 where
  user_logger : User → Logger User Test
  tb_logger : Test → Logger User Test
  nop_logger : Logger User Test

unfoldable pub resolve_logger : {User Test : Type 0} → Option User → Option Test → Logger User Test
resolve_logger (some user) tb = user_logger user
resolve_logger none (some tb) = tb_logger tb
resolve_logger none none = nop_logger

-- What has been printed, by the logger it went to.
abbrev pub Printed : Type 0 → Type 0 → Type 0
Printed User Test = List (User × String) × List (Test × String)

abbrev printf :
    {User Test : Type 0} → Logger User Test → String → Printed User Test → Printed User Test
printf (user_logger user) line (users, tests) = (Prelude.◌++◌ users ((user, line) ∷ []), tests)
printf (tb_logger tb) line (users, tests) = (users, Prelude.◌++◌ tests ((tb, line) ∷ []))
printf nop_logger line printed = printed

abbrev print_lines :
    {User Test : Type 0} → Logger User Test → List String → Printed User Test → Printed User Test
print_lines log [] printed = printed
print_lines log (line ∷ lines) printed = print_lines log lines (printf log line printed)

module _ (lib : UrlLibrary) where
  open lib use {Parts, parse, render}

  abbrev mask : String → Option UrlUser → Parts → String
  mask dsn none parts = dsn
  mask dsn (some info) parts = elim info.pass [
    | none ↦ dsn
    | some secret ↦ render (record {
      user = some (record { username = info.username; pass = some "****" });
      parts = parts;
    })
  ]

  abbrev sanitized : String → Option (Url Parts) → String
  sanitized dsn none = dsn
  sanitized dsn (some u) = mask dsn u.user u.parts

  -- `sanitizeDSN`
  unfoldable pub sanitize_dsn : String → String
  sanitize_dsn dsn = sanitized dsn (parse dsn)

  abbrev line : String → String → String → String
  line head name tail = head ++ (name ++ tail)

  abbrev postgres_lines : String × PostgresResource → List String
  postgres_lines (name, r) = line "  postgres[" name ("] = " ++ sanitize_dsn r.dsn) ∷ []

  abbrev clickhouse_lines : String × ClickHouseResource → List String
  clickhouse_lines (name, r) =
      line "  clickhouse[" name ("] = " ++ sanitize_dsn r.dsn)
      ∷ line "  clickhouse[" name ("] http = " ++ sanitize_dsn r.http_dsn)
      ∷ []

  abbrev redis_lines : String × RedisResource → List String
  redis_lines (name, r) = line "  redis[" name ("] = " ++ r.addr) ∷ []

  abbrev kafka_lines : String × KafkaResource → List String
  kafka_lines (name, r) = line "  kafka[" name ("] = " ++ join_commas r.brokers) ∷ []

  abbrev mock_lines : String × HttpMockResource → List String
  mock_lines (name, r) =
      line "  httpmock[" name ("] (" ++ (r.provider ++ (") = " ++ r.base_url))) ∷ []

  abbrev local_lines : String × LocalStackResource → List String
  local_lines (name, r) =
      line "  localstack[" name ("] = " ++ (r.endpoint ++ (" region=" ++ r.region))) ∷ []

  -- The lines of the six loops, each map in the order of its range.
  unfoldable pub connection_lines : Services → List String
  unfolding sanitize_dsn join_commas flat_map
  connection_lines s =
      "itestkit: connection info"
      ∷ Prelude.◌++◌ (flat_map postgres_lines s.postgres_map) (
          Prelude.◌++◌ (flat_map clickhouse_lines s.clickhouse_map) (
            Prelude.◌++◌ (flat_map redis_lines s.redis_map) (
              Prelude.◌++◌ (flat_map kafka_lines s.kafka_map) (
                Prelude.◌++◌ (flat_map mock_lines s.mock_map) (flat_map local_lines s.local_map)))))

  -- `printConnectionInfo`
  unfoldable pub print_connection_info :
      {User Test : Type 0} → Services → Logger User Test → Printed User Test → Printed User Test
  unfolding connection_lines
  print_connection_info s log printed = print_lines log (connection_lines s) printed
