-- ===== src/Itestkit/Services/Postgres.antt =====
-- itestkit/postgres.go.
use Prim.Native.String.{◌++◌}
use aeternixth_go_lib.Prelude.{ℕ, Bool, String, List, [], ◌∷◌, map, ◌⊎◌, inl, inr, if◌then◌else◌}
use aeternixth_go_lib.Prelude
use aeternixth_go_lib.Itestkit.Options.{PostgresOptions}
use aeternixth_go_lib.Itestkit.Docker.{
  Client, Customizer, database, username, password, init_scripts, Docker, postgres_image,
  or_terminate,
}
use aeternixth_go_lib.Itestkit.Services.{
  or_default, default_database_name, network_alias, extra_env, absolute_config, absolute_scripts,
  start_container, start_all,
}

pub record PostgresResource : Type 0 where
  pub name : String
  pub dsn : String
  pub host : String
  pub port : String
  pub database_name : String
  pub user : String
  pub pass : String
  pub container : ℕ

module _ (k : Client) (project : String) (net : Bool) where
  -- The customizers: one for each init script.
  unfoldable pub postgres_customizers : String → PostgresOptions → List Customizer ⊎ String
  unfolding absolute_scripts
  postgres_customizers name cfg = elim (absolute_scripts k cfg.init_scripts) [
    | inr err ↦ inr err
    | inl paths ↦ elim (absolute_config k cfg.config_file) [
      | inr err ↦ inr err
      | inl config ↦ inl (
          database (or_default cfg.database (default_database_name project name))
          ∷ username (or_default cfg.username "test")
          ∷ password (or_default cfg.password "test")
          ∷ Prelude.◌++◌ (map (λ path. init_scripts (path ∷ [])) paths) (
              Prelude.◌++◌ config
                (Prelude.◌++◌ (network_alias net ("postgres-" ++ name)) (extra_env cfg.extra_env))))
    ]
  ]

  abbrev postgres_dsn : String → String → String → String → String → String
  postgres_dsn user pass host port db =
      "postgres://"
      ++ (k.query_escape user
          ++ (":"
              ++ (k.query_escape pass
                  ++ ("@" ++ (host ++ (":" ++ (port ++ ("/" ++ (db ++ "?sslmode=disable")))))))))

  -- `startOnePostgres`
  unfoldable pub start_one_postgres :
      String → PostgresOptions → Docker → (PostgresResource ⊎ String) × Docker
  unfolding start_container postgres_customizers
  start_one_postgres name cfg d =
      let db = or_default cfg.database (default_database_name project name) in
      let user = or_default cfg.username "test" in
      let pass = or_default cfg.password "test" in
      start_container k postgres_image (or_default cfg.image "postgres:16-alpine")
        (postgres_customizers name cfg)
        (λ c d1.
          or_terminate c (λ e. "host: " ++ e) d1 (k.host c)
            (λ host.
              or_terminate c (λ e. "mapped port: " ++ e) d1 (k.mapped_port c "5432/tcp")
                (λ port. (
                  inl (record {
                    name = name;
                    dsn = postgres_dsn user pass host port db;
                    host = host;
                    port = port;
                    database_name = db;
                    user = user;
                    pass = pass;
                    container = c;
                  }),
                  d1,
                ))))
        d

  -- `startPostgres`
  unfoldable pub start_postgres :
      Bool
      → List (String × PostgresOptions)
      → Docker
      → (List (String × PostgresResource) ⊎ String) × Docker
  unfolding start_all start_one_postgres
  start_postgres keep cfgs d =
      start_all (λ r. r.container) keep "postgres" start_one_postgres cfgs [] d
