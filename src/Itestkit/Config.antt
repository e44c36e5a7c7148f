-- ===== src/Itestkit/Config.antt =====
-- itestkit/result.go and `buildAppTestConfig` of itestkit/stack.go: the endpoints by instance name.
use aeternixth_go_lib.Prelude.{
  String, List, [], ◌∷◌, Option, none, some, ◌≡◌, refl, arith, lookup, insert, Distinct, or_else,
  lookup-insert, eq_iff,
}
use aeternixth_go_lib.Itestkit.Setup.Phases.{Services}

pub record AppTestConfig : Type 0 where
  pub postgres_dsns : List (String × String)
  pub clickhouse_dsns : List (String × String)
  pub clickhouse_http_dsns : List (String × String)
  pub redis_addrs : List (String × String)
  pub redis_urls : List (String × String)
  pub kafka_brokers : List (String × List String)
  pub http_mock_base_urls : List (String × String)
  pub local_stack_endpoints : List (String × String)
  pub local_stack_regions : List (String × String)
  pub local_stack_access_key : List (String × String)
  pub local_stack_secret_key : List (String × String)

-- A loop that writes one detail of each resource under its name.
unfoldable pub collect :
    {A V : Type 0} → (A → V) → List (String × A) → List (String × V) → List (String × V)
collect detail [] out = out
collect detail ((name, r) ∷ rest) out = collect detail rest (insert name (detail r) out)

unfoldable pub build_app_test_config : Services → AppTestConfig
unfolding collect
build_app_test_config s = record {
  postgres_dsns = collect (λ r. r.dsn) s.postgres_map [];
  clickhouse_dsns = collect (λ r. r.dsn) s.clickhouse_map [];
  clickhouse_http_dsns = collect (λ r. r.http_dsn) s.clickhouse_map [];
  redis_addrs = collect (λ r. r.addr) s.redis_map [];
  redis_urls = collect (λ r. r.url) s.redis_map [];
  kafka_brokers = collect (λ r. r.brokers) s.kafka_map [];
  http_mock_base_urls = collect (λ r. r.base_url) s.mock_map [];
  local_stack_endpoints = collect (λ r. r.endpoint) s.local_map [];
  local_stack_regions = collect (λ r. r.region) s.local_map [];
  local_stack_access_key = collect (λ r. r.access_key_id) s.local_map [];
  local_stack_secret_key = collect (λ r. r.secret_access_key) s.local_map [];
}

-- The value under a key, or the type's zero value.
abbrev pub at_or : {V : Type 0} → V → String → List (String × V) → V
at_or zero name entries = elim (lookup name entries) [ some val ↦ val | none ↦ zero ]

abbrev pub postgres_dsn_of : AppTestConfig → String → String
postgres_dsn_of c name = at_or "" name c.postgres_dsns

abbrev pub clickhouse_dsn_of : AppTestConfig → String → String
clickhouse_dsn_of c name = at_or "" name c.clickhouse_dsns

abbrev pub clickhouse_http_dsn_of : AppTestConfig → String → String
clickhouse_http_dsn_of c name = at_or "" name c.clickhouse_http_dsns

abbrev pub redis_addr_of : AppTestConfig → String → String
redis_addr_of c name = at_or "" name c.redis_addrs

abbrev pub redis_url_of : AppTestConfig → String → String
redis_url_of c name = at_or "" name c.redis_urls

abbrev pub kafka_brokers_of : AppTestConfig → String → List String
kafka_brokers_of c name = at_or [] name c.kafka_brokers

abbrev pub http_mock_base_url_of : AppTestConfig → String → String
http_mock_base_url_of c name = at_or "" name c.http_mock_base_urls

abbrev pub local_stack_endpoint_of : AppTestConfig → String → String
local_stack_endpoint_of c name = at_or "" name c.local_stack_endpoints

abbrev pub local_stack_region_of : AppTestConfig → String → String
local_stack_region_of c name = at_or "" name c.local_stack_regions

abbrev pub local_stack_access_key_of : AppTestConfig → String → String
local_stack_access_key_of c name = at_or "" name c.local_stack_access_key

abbrev pub local_stack_secret_key_of : AppTestConfig → String → String
local_stack_secret_key_of c name = at_or "" name c.local_stack_secret_key

-- A detail of the resource with the name, or the zero value where there is none.
abbrev pub detail_of : {A V : Type 0} → V → (A → V) → Option A → V
detail_of zero detail none = zero
detail_of zero detail (some r) = detail r

abbrev detailed : {A V : Type 0} → (A → V) → Option A → Option V
detailed detail none = none
detailed detail (some r) = some (detail r)

lookup-collect :
    {A V : Type 0} (detail : A → V) (xs : List (String × A)) (out : List (String × V)) (j : String)
    → Distinct xs
    → lookup j (collect detail xs out) ≡ or_else (detailed detail (lookup j xs)) (lookup j out)
unfolding lookup collect
lookup-collect detail [] out j d = refl
lookup-collect detail ((name, r) ∷ rest) out j (fresh, d) = ground (
  arith,
  lookup-collect detail rest (insert name (detail r) out) j d,
  lookup-insert name j (detail r) out,
  eq_iff name j,
)

at_or-collect :
    {A V : Type 0} (zero : V) (detail : A → V) (xs : List (String × A)) (j : String)
    → Distinct xs
    → at_or zero j (collect detail xs []) ≡ detail_of zero detail (lookup j xs)
unfolding lookup
at_or-collect zero detail xs j d = ground (arith, lookup-collect detail xs [] j d)

-- On maps that hold each name once, every accessor of the configuration gives the detail of the
-- stack's resource with that name, and the zero value where the stack has none.
pub build_app_test_config_lem :
    (s : Services) (name : String)
    → Distinct s.postgres_map
    → Distinct s.clickhouse_map
    → Distinct s.redis_map
    → Distinct s.kafka_map
    → Distinct s.mock_map
    → Distinct s.local_map
    → let c = build_app_test_config s in
      (postgres_dsn_of c name ≡ detail_of "" (λ r. r.dsn) (lookup name s.postgres_map))
      × (clickhouse_dsn_of c name ≡ detail_of "" (λ r. r.dsn) (lookup name s.clickhouse_map))
      × (clickhouse_http_dsn_of c name
          ≡ detail_of "" (λ r. r.http_dsn) (lookup name s.clickhouse_map))
      × (redis_addr_of c name ≡ detail_of "" (λ r. r.addr) (lookup name s.redis_map))
      × (redis_url_of c name ≡ detail_of "" (λ r. r.url) (lookup name s.redis_map))
      × (kafka_brokers_of c name ≡ detail_of [] (λ r. r.brokers) (lookup name s.kafka_map))
      × (http_mock_base_url_of c name ≡ detail_of "" (λ r. r.base_url) (lookup name s.mock_map))
      × (local_stack_endpoint_of c name ≡ detail_of "" (λ r. r.endpoint) (lookup name s.local_map))
      × (local_stack_region_of c name ≡ detail_of "" (λ r. r.region) (lookup name s.local_map))
      × (local_stack_access_key_of c name
          ≡ detail_of "" (λ r. r.access_key_id) (lookup name s.local_map))
      × (local_stack_secret_key_of c name
          ≡ detail_of "" (λ r. r.secret_access_key) (lookup name s.local_map))
unfolding build_app_test_config
build_app_test_config_lem s name ps cs rs ks ms ls = (
  at_or-collect "" (λ r. r.dsn) s.postgres_map name ps,
  at_or-collect "" (λ r. r.dsn) s.clickhouse_map name cs,
  at_or-collect "" (λ r. r.http_dsn) s.clickhouse_map name cs,
  at_or-collect "" (λ r. r.addr) s.redis_map name rs,
  at_or-collect "" (λ r. r.url) s.redis_map name rs,
  at_or-collect [] (λ r. r.brokers) s.kafka_map name ks,
  at_or-collect "" (λ r. r.base_url) s.mock_map name ms,
  at_or-collect "" (λ r. r.endpoint) s.local_map name ls,
  at_or-collect "" (λ r. r.region) s.local_map name ls,
  at_or-collect "" (λ r. r.access_key_id) s.local_map name ls,
  at_or-collect "" (λ r. r.secret_access_key) s.local_map name ls,
)
