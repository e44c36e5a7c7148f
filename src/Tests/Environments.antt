-- ===== src/Tests/Environments.antt =====
-- The environment, the connection information, the JSON helpers for Redis, the names of networks, the
-- levels of logs and the pingers at concrete inputs.
use Prim.Native.String.{◌++◌}
use aeternixth_go_lib.Prelude.{
  ℕ, ◌≡◌, refl, String, List, [], ◌∷◌, none, some, ◌⊎◌, inl, inr, codes, str_eq, if◌then◌else◌,
  codes_eq,
}
use aeternixth_go_lib.Itestkit.Stack.{no_services}
use aeternixth_go_lib.Itestkit.Setup.Phases.{Services}
use aeternixth_go_lib.Itestkit.Services.Postgres.{PostgresResource}
use aeternixth_go_lib.Itestkit.Environment.Export.{Variables, read, export_env}
use aeternixth_go_lib.Itestkit.Environment.Variables.{Applied, apply_env-export_env}
use aeternixth_go_lib.Itestkit.Environment.Apply.{apply_env, export_env-DistinctKeys, setenv}
use aeternixth_go_lib.Itestkit.Debug.{
  UrlLibrary, Url, sanitize_dsn, print_connection_info, resolve_logger,
}
use aeternixth_go_lib.Itestkit.Debug.Laws.{print_connection_info-secrets}
use aeternixth_go_lib.Itestkit.Redisjson.{Library, redis_get_json, unwrapped, RedisError, redis_nil}
use aeternixth_go_lib.Itestkit.Networks.{network_name}
use aeternixth_go_lib.Logger.{level_warn, parse_level, print_payload}
use aeternixth_go_lib.Health.{live}
use aeternixth_go_lib.Health.Pingers.{gorm_ping}

abbrev database : String → PostgresResource
database dsn = record {
  name = "core";
  dsn = dsn;
  host = "h";
  port = "1";
  database_name = "d";
  user = "u";
  pass = "";
  container = 0;
}

abbrev old_environment : Variables
old_environment = (codes "HOME", "/root") ∷ (codes "POSTGRES_CORE_DSN", "old") ∷ []

abbrev stack : String → Services
stack dsn = record no_services { postgres_map = ("core", database dsn) ∷ [] }

apply_env-export_env_example :
    Applied
      (λ c. c)
      (stack "db://u:one@h")
      (codes "POSTGRES_CORE_DSN")
      (read (codes "POSTGRES_CORE_DSN") old_environment)
      (read
        (codes "POSTGRES_CORE_DSN")
        (apply_env (export_env (λ c. c) (stack "db://u:one@h")) old_environment))
apply_env-export_env_example =
    apply_env-export_env (λ c. c) (stack "db://u:one@h")
      (export_env (λ c. c) (stack "db://u:one@h")) old_environment (codes "POSTGRES_CORE_DSN")
      (export_env-DistinctKeys (λ c. c) (stack "db://u:one@h")) (λ k. refl)

applied :
    apply_env ((codes "A", "1") ∷ (codes "B=", "2") ∷ []) ((codes "A", "0") ∷ (codes "C", "3") ∷ [])
    ≡ (codes "A", "1") ∷ (codes "C", "3") ∷ []
unfolding apply_env setenv codes_eq
applied = refl

abbrev with_secret : String → Url String
with_secret secret = record {
  user = some (record { username = "u"; pass = some secret });
  parts = "h";
}

abbrev url_text : Url String → String
url_text u = elim u.user [
  | none ↦ "db://" ++ u.parts
  | some info ↦ elim info.pass [
    | none ↦ "db://" ++ (info.username ++ ("@" ++ u.parts))
    | some secret ↦ "db://" ++ (info.username ++ (":" ++ (secret ++ ("@" ++ u.parts))))
  ]
]

abbrev urls : UrlLibrary
urls = record {
  Parts = String;
  parse = λ dsn.
      if str_eq dsn "db://u:one@h"
      then some (with_secret "one")
      else if str_eq dsn "db://u:two@h"
      then some (with_secret "two")
      else none;
  render = url_text;
}

masked : sanitize_dsn urls "db://u:one@h" ≡ "db://u:****@h"
unfolding sanitize_dsn
masked = refl

print_connection_info-secrets_example :
    (print_connection_info urls
        (stack "db://u:one@h")
        (resolve_logger {User = ℕ} {Test = ℕ} none (some 7))
        ([], [])
      ≡ print_connection_info urls
          (stack "db://u:two@h")
          (resolve_logger {User = ℕ} {Test = ℕ} none (some 7))
          ([], []))
    × (print_connection_info urls
          (stack "db://u:one@h")
          (resolve_logger {User = ℕ} {Test = ℕ} none none)
          ([], [])
        ≡ ([], []))
print_connection_info-secrets_example =
    print_connection_info-secrets urls (stack "db://u:one@h") (stack "db://u:two@h") none (some 7)
      ([], []) ((refl, inr ("u", "one", "two", "h", refl, refl), tt), tt, tt, tt, tt, tt)

-- A missing key leaves the value alone, and gives redis.Nil.
abbrev shelf : Library ℕ
shelf = record {
  State = List ℕ ⊎ RedisError;
  parse_url = λ url. none;
  marshal = λ n. inl (n ∷ []);
  unmarshal = λ bytes out. elim bytes [ [] ↦ (out, some "empty") | n ∷ rest ↦ (n, none) ];
  set = λ url key bytes ttl st. (none, inl bytes);
  get = λ url key st. st;
}

missing : redis_get_json shelf "redis://h" "k" 7 (inr redis_nil) ≡ (7, some (unwrapped redis_nil))
unfolding redis_get_json
missing = refl

named : network_name "" (some (0xab ∷ 1 ∷ 2 ∷ 255 ∷ [])) ≡ codes "itest-net-ab0102ff"
unfolding network_name
named = refl

levels : parse_level (λ c. c) (codes "  Warning\n") ≡ level_warn
unfolding parse_level
levels = refl

pinged :
    gorm_ping (record { sql_db = none; ping_context = λ ctx. some "refused" }) live
    ≡ some "healthgorm: refused"
unfolding gorm_ping
pinged = refl

payload : print_payload (inr "chan") ≡ "PAYLOAD "
unfolding print_payload
payload = refl
