-- ===== src/Tests/Handlers.antt =====
-- The configuration of a stack, and the readers behind a middleware, at concrete inputs.
use aeternixth_go_lib.Prelude.{
  String, [], ◌∷◌, none, some, true, ◌≡◌, ◌↔◌, codes, refl, lookup, inl, inr,
}
use aeternixth_go_lib.Errors.{AppError, app}
use aeternixth_go_lib.Fiberutil.{get_user}
use aeternixth_go_lib.Fiberutil.Laws.{get_user-jwt_middleware}
use aeternixth_go_lib.Jwt.{Library, Parsed}
use aeternixth_go_lib.Middleware.Jwt.{Claims, new_claims, UserInfo, unset, jwt_middleware}
use aeternixth_go_lib.Web.{Request, Reply, empty, Exit, returned}
use aeternixth_go_lib.Itestkit.Services.Redis.{RedisResource}
use aeternixth_go_lib.Itestkit.Environment.{env_fragment, AllSimilar, env_fragment_iff}
use aeternixth_go_lib.Itestkit.Validation.Names.{IsNameRune}
use aeternixth_go_lib.Prelude.{All, arith}
use aeternixth_go_lib.Itestkit.Setup.Phases.{Services}
use aeternixth_go_lib.Itestkit.Stack.{no_services}
use aeternixth_go_lib.Itestkit.Config.{
  build_app_test_config, detail_of, build_app_test_config_lem, postgres_dsn_of, clickhouse_dsn_of,
  clickhouse_http_dsn_of, redis_addr_of, redis_url_of, kafka_brokers_of, http_mock_base_url_of,
  local_stack_endpoint_of, local_stack_region_of, local_stack_access_key_of,
  local_stack_secret_key_of,
}

main_dash-runes : All IsNameRune (codes "main-db")
main_dash-runes = ground arith

main_underscore-runes : All IsNameRune (codes "main_db")
main_underscore-runes = ground arith

env_fragment_iff_example :
    (env_fragment (λ c. c) (codes "main-db") ≡ env_fragment (λ c. c) (codes "main_db"))
    ↔ AllSimilar (codes "main-db") (codes "main_db")
env_fragment_iff_example =
    env_fragment_iff (λ c. c) (codes "main-db") (codes "main_db") main_dash-runes
      main_underscore-runes

abbrev cache : RedisResource
cache = record {
  name = "cache";
  addr = "localhost:1";
  url = "redis://localhost:1";
  host = "localhost";
  port = "1";
  container = 0;
}

abbrev services : Services
services = record no_services { redis_map = ("cache", cache) ∷ [] }

build_app_test_config_lem_example :
    let c = build_app_test_config services in
    (postgres_dsn_of c "cache" ≡ detail_of "" (λ r. r.dsn) (lookup "cache" services.postgres_map))
    × (clickhouse_dsn_of c "cache"
        ≡ detail_of "" (λ r. r.dsn) (lookup "cache" services.clickhouse_map))
    × (clickhouse_http_dsn_of c "cache"
        ≡ detail_of "" (λ r. r.http_dsn) (lookup "cache" services.clickhouse_map))
    × (redis_addr_of c "cache" ≡ detail_of "" (λ r. r.addr) (lookup "cache" services.redis_map))
    × (redis_url_of c "cache" ≡ detail_of "" (λ r. r.url) (lookup "cache" services.redis_map))
    × (kafka_brokers_of c "cache"
        ≡ detail_of [] (λ r. r.brokers) (lookup "cache" services.kafka_map))
    × (http_mock_base_url_of c "cache"
        ≡ detail_of "" (λ r. r.base_url) (lookup "cache" services.mock_map))
    × (local_stack_endpoint_of c "cache"
        ≡ detail_of "" (λ r. r.endpoint) (lookup "cache" services.local_map))
    × (local_stack_region_of c "cache"
        ≡ detail_of "" (λ r. r.region) (lookup "cache" services.local_map))
    × (local_stack_access_key_of c "cache"
        ≡ detail_of "" (λ r. r.access_key_id) (lookup "cache" services.local_map))
    × (local_stack_secret_key_of c "cache"
        ≡ detail_of "" (λ r. r.secret_access_key) (lookup "cache" services.local_map))
unfolding lookup
build_app_test_config_lem_example =
    build_app_test_config_lem services "cache" tt tt (refl, tt) tt tt tt

-- Accepts every token, for one user.
abbrev claims : Claims
claims = new_claims 5 "7" "ann" "a@b.c" "admin" 60000000000

abbrev library : Library Claims
library = record {
  sign = λ c secret. some secret;
  parse = λ text key. Parsed.token (some claims) true;
}

abbrev request : Request
request = record { method = "GET"; path = "/me"; header = λ name. "Bearer key" }

abbrev blank : Reply String
blank = record { status = 200; body = empty }

abbrev on_success : UserInfo String → Reply String → Exit String
on_success u r = returned none (record { status = 201; body = empty })

abbrev refused : AppError String → Reply String → Exit String
refused err r = returned (some (app err)) r

abbrev ignored : AppError String → Reply String → Exit String
ignored err r = returned none r

get_user-jwt_middleware_example :
    jwt_middleware library "key" some request
      (λ l r. elim (get_user l) [ inl u ↦ on_success u r | inr err ↦ refused err r ])
      unset
      blank
    ≡ jwt_middleware library "key" some request
        (λ l r. elim (get_user l) [ inl u ↦ on_success u r | inr err ↦ ignored err r ])
        unset
        blank
get_user-jwt_middleware_example =
    get_user-jwt_middleware library "key" some request blank unset on_success refused ignored
