-- ===== src/Itestkit/Services/Clickhouse.antt =====
-- itestkit/clickhouse.go.
use Prim.Native.String.{◌++◌}
use aeternixth_go_lib.Prelude.{ℕ, Bool, String, List, [], ◌∷◌, map, ◌⊎◌, inl, inr, if◌then◌else◌}
use aeternixth_go_lib.Prelude
use aeternixth_go_lib.Itestkit.Options.{ClickHouseOptions}
use aeternixth_go_lib.Itestkit.Docker.{
  Client, Customizer, database, username, password, init_scripts, Docker, clickhouse_image,
  or_terminate,
}
use aeternixth_go_lib.Itestkit.Services.{
  or_default, default_database_name, network_alias, extra_env, absolute_config, absolute_scripts,
  start_container, start_all,
}

pub record ClickHouseResource : Type 0 where
  pub name : String
  pub dsn : String
  pub http_dsn : String
  pub host : String
  pub native_port : String
  pub http_port : String
  pub database_name : String
  pub user : String
  pub pass : String
  pub container : ℕ

abbrev script_customizer : List String → List Customizer
script_customizer [] = []
script_customizer (path ∷ paths) = init_scripts (path ∷ paths) ∷ []

module _ (k : Client) (project : String) (net : Bool) where
  -- The customizers: one for all the init scripts.
  unfoldable pub clickhouse_customizers : String → ClickHouseOptions → List Customizer ⊎ String
  unfolding absolute_scripts
  clickhouse_customizers name cfg = elim (absolute_scripts k cfg.init_scripts) [
    | inr err ↦ inr err
    | inl paths ↦ elim (absolute_config k cfg.config_file) [
      | inr err ↦ inr err
      | inl config ↦ inl (
          database (or_default cfg.database (default_database_name project name))
          ∷ username (or_default cfg.username "default")
          ∷ password (or_default cfg.password "test")
          ∷ Prelude.◌++◌ (script_customizer paths) (
              Prelude.◌++◌ config (
                Prelude.◌++◌ (network_alias net ("clickhouse-" ++ name))
                  (extra_env cfg.extra_env))))
    ]
  ]

  -- The user, the password, and the address of a DSN.
  abbrev authority : String → String → String → String → String
  authority user pass host port =
      k.query_escape user ++ (":" ++ (k.query_escape pass ++ ("@" ++ (host ++ (":" ++ port)))))

  -- `startOneClickHouse`
  unfoldable pub start_one_clickhouse :
      String → ClickHouseOptions → Docker → (ClickHouseResource ⊎ String) × Docker
  unfolding start_container clickhouse_customizers
  start_one_clickhouse name cfg d =
      let db = or_default cfg.database (default_database_name project name) in
      let user = or_default cfg.username "default" in
      let pass = or_default cfg.password "test" in
      start_container k clickhouse_image
        (or_default cfg.image "clickhouse/clickhouse-server:24.8-alpine")
        (clickhouse_customizers name cfg)
        (λ c d1.
          or_terminate c (λ e. "host: " ++ e) d1 (k.host c)
            (λ host.
              or_terminate c (λ e. "native port: " ++ e) d1 (k.mapped_port c "9000/tcp")
                (λ native.
                  or_terminate c (λ e. "http port: " ++ e) d1 (k.mapped_port c "8123/tcp")
                    (λ http. (
                      inl (record {
                        name = name;
                        dsn = "clickhouse://" ++ (authority user pass host native ++ ("/" ++ db));
                        http_dsn =
                            "http://" ++ (authority user pass host http ++ ("/?database=" ++ db));
                        host = host;
                        native_port = native;
                        http_port = http;
                        database_name = db;
                        user = user;
                        pass = pass;
                        container = c;
                      }),
                      d1,
                    )))))
        d

  -- `startClickHouse`
  unfoldable pub start_clickhouse :
      Bool
      → List (String × ClickHouseOptions)
      → Docker
      → (List (String × ClickHouseResource) ⊎ String) × Docker
  unfolding start_all start_one_clickhouse
  start_clickhouse keep cfgs d =
      start_all (λ r. r.container) keep "clickhouse" start_one_clickhouse cfgs [] d
