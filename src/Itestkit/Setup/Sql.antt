-- ===== src/Itestkit/Setup/Sql.antt =====
-- itestkit/migration.go, sqlhelpers.go, the SQL of cleanup.go, and the runners of
-- internal/sqlrunner/postgres.go and clickhouse.go. Log lines about missing paths are left out, and
-- so are the connections' closings.
use aeternixth_go_lib.Prelude.{
  ℕ, Bool, true, false, ◌&&◌, String, List, [], ◌∷◌, ◌++◌, none, some, codes, lookup, map,
  if◌then◌else◌,
}
use aeternixth_go_lib.Itestkit.Options.{PostgresOptions, ClickHouseOptions}
use aeternixth_go_lib.Itestkit.Services.Postgres.{PostgresResource}
use aeternixth_go_lib.Itestkit.Services.Clickhouse.{ClickHouseResource}
use aeternixth_go_lib.Itestkit.Files.{FileSystem}
use aeternixth_go_lib.Itestkit.Files.Collect.{collect_sql_files, read_file}
use aeternixth_go_lib.Itestkit.Identifiers.{truncate_statement}
use aeternixth_go_lib.Itestkit.Sqlrunner.{split_sql}
use aeternixth_go_lib.Itestkit.Outside.{
  Outside, postgres_db, clickhouse_db, open_db, ping_db, exec_db, Act, pure, ◌>>=◌, ◌>>◌, or_wrap,
  from_file, call, for_each,
}

-- `strings.Join(tables, ",")`
unfoldable pub comma_separated : List (List ℕ) → List ℕ
comma_separated [] = []
comma_separated (t ∷ []) = t
comma_separated (t ∷ u ∷ tables) = t ++ b',' ∷ comma_separated (u ∷ tables)

-- The maps' names are texts: `kind[name] rest`
abbrev pub labelled : String → String → String → List ℕ
labelled kind name rest = codes kind ++ (codes name ++ codes rest)

-- A configured instance that runs: `continue` where the options do not ask for the work, or where
-- the map of resources has no such name.
abbrev pub instance_of :
    {Res : Type 0} → List (String × Res) → String → Bool → (Res → Act (Unit {0})) → Act (Unit {0})
instance_of res name asked body =
    if asked then elim (lookup name res) [ none ↦ pure tt | some r ↦ body r ] else pure tt

abbrev pub non_empty : {A : Type 0} → List A → Bool
non_empty [] = false
non_empty (a ∷ s) = true

abbrev pub when : Bool → Act (Unit {0}) → Act (Unit {0})
when b m = if b then m else pure tt

module _ (out : Outside) where
  -- sqlrunner's `ExecPostgresFile`
  unfoldable pub run_postgres : String → List ℕ → List ℕ → Act (Unit {0})
  unfolding call
  run_postgres dsn script label =
      or_wrap (codes "open " ++ label) (call out (open_db postgres_db dsn))
      >> or_wrap (codes "ping " ++ label) (call out (ping_db postgres_db dsn))
      >> or_wrap (codes "exec " ++ label) (call out (exec_db postgres_db dsn script))

  -- sqlrunner's `ExecClickHouseFile`
  unfoldable pub run_clickhouse : String → List ℕ → List ℕ → Act (Unit {0})
  unfolding call for_each split_sql
  run_clickhouse dsn script label =
      or_wrap (codes "open " ++ label) (call out (open_db clickhouse_db dsn))
      >> or_wrap (codes "ping " ++ label) (call out (ping_db clickhouse_db dsn))
      >> for_each
          (λ stmt. or_wrap (codes "exec " ++ label) (call out (exec_db clickhouse_db dsn stmt)))
          (split_sql script)

  -- `TruncatePostgres`
  unfoldable pub truncate_postgres : String → List (List ℕ) → Act (Unit {0})
  unfolding call truncate_statement comma_separated
  truncate_postgres dsn tables = elim (truncate_statement tables) [
    | none ↦ pure tt
    | some stmt ↦
        or_wrap (codes "open postgres") (call out (open_db postgres_db dsn))
        >> or_wrap (codes "truncate " ++ comma_separated tables)
            (call out (exec_db postgres_db dsn stmt))
  ]

  -- `DropPostgresPublicSchema`
  unfoldable pub drop_postgres_public_schema : String → Act (Unit {0})
  unfolding call
  drop_postgres_public_schema dsn =
      or_wrap (codes "open postgres") (call out (open_db postgres_db dsn))
      >> or_wrap (codes "drop public schema") (
          call out (
            exec_db postgres_db dsn
              (codes "DROP SCHEMA IF EXISTS public CASCADE; CREATE SCHEMA public;")))

  -- `ExecClickHouse`, without arguments
  unfoldable pub exec_clickhouse : String → List ℕ → Act (Unit {0})
  unfolding call
  exec_clickhouse dsn query =
      or_wrap (codes "open clickhouse") (call out (open_db clickhouse_db dsn))
      >> or_wrap (codes "exec clickhouse") (call out (exec_db clickhouse_db dsn query))

  abbrev drop_tables : String → List (List ℕ) → Act (Unit {0})
  drop_tables dsn tables =
      or_wrap (codes "open clickhouse") (call out (open_db clickhouse_db dsn))
      >> for_each
          (λ t.
            or_wrap (codes "drop table " ++ t)
              (call out (exec_db clickhouse_db dsn (codes "DROP TABLE IF EXISTS " ++ t))))
          tables

  -- `DropClickHouseTables`
  unfoldable pub drop_clickhouse_tables : String → List (List ℕ) → Act (Unit {0})
  unfolding call for_each
  drop_clickhouse_tables dsn [] = pure tt
  drop_clickhouse_tables dsn (t ∷ tables) = drop_tables dsn (t ∷ tables)

module _ (out : Outside) (fs : FileSystem) where
  -- migration.go's `execPostgresFile`; `ExecPostgresFile` is the one whose label is the path.
  unfoldable pub exec_postgres_file : String → List ℕ → List ℕ → Act (Unit {0})
  unfolding run_postgres read_file
  exec_postgres_file dsn path label =
      from_file (read_file fs path) >>= λ script. run_postgres out dsn script label

  unfoldable pub exec_clickhouse_file : String → List ℕ → List ℕ → Act (Unit {0})
  unfolding run_clickhouse read_file
  exec_clickhouse_file dsn path label =
      from_file (read_file fs path) >>= λ script. run_clickhouse out dsn script label

  -- `ExecPostgresDir`
  unfoldable pub exec_postgres_dir : String → List ℕ → Bool → Act (Unit {0})
  unfolding exec_postgres_file for_each collect_sql_files
  exec_postgres_dir dsn dir strict =
      or_wrap (codes "collect " ++ dir) (from_file (collect_sql_files fs strict (dir ∷ [])))
      >>= λ found. for_each (λ f. exec_postgres_file dsn f f) found.files

  -- `ExecClickHouseDir`
  unfoldable pub exec_clickhouse_dir : String → List ℕ → Bool → Act (Unit {0})
  unfolding exec_clickhouse_file for_each collect_sql_files
  exec_clickhouse_dir dsn dir strict =
      or_wrap (codes "collect " ++ dir) (from_file (collect_sql_files fs strict (dir ∷ [])))
      >>= λ found. for_each (λ f. exec_clickhouse_file dsn f f) found.files

  -- The second half of the four loops: the files of the paths, in the order of `CollectSQLFiles`
  -- each run with its label and wrapped. `kind` is "postgres[" or "clickhouse[".
  abbrev pub files_run :
      (List ℕ → List ℕ → Act (Unit {0}))
      → String
      → String
      → String
      → String
      → Bool
      → List String
      → Act (Unit {0})
  files_run exec kind name collecting what strict paths =
      or_wrap (codes "apply " ++ labelled kind name collecting)
        (from_file (collect_sql_files fs strict (map codes paths)))
      >>= λ found.
          for_each
            (λ f.
              or_wrap (codes "apply " ++ (labelled kind name what ++ f))
                (exec f (labelled kind name what ++ f)))
            found.files

  -- `applyPostgresMigrations`
  unfoldable pub apply_postgres_migrations :
      List (String × PostgresOptions) → List (String × PostgresResource) → Act (Unit {0})
  unfolding exec_postgres_file for_each collect_sql_files drop_postgres_public_schema lookup
  apply_postgres_migrations opts res =
      for_each
        (λ (name, cfg).
          instance_of res name (cfg.apply_migrations && non_empty cfg.migration_paths) (λ r.
            when cfg.drop_public_schema_before_migrate (
              or_wrap (codes "apply " ++ labelled "postgres[" name "] drop public schema")
                (drop_postgres_public_schema out r.dsn))
            >> files_run (exec_postgres_file r.dsn) "postgres[" name "] collect migrations"
                "] migration file " cfg.strict_path cfg.migration_paths))
        opts

  -- `applyPostgresSeeds`
  unfoldable pub apply_postgres_seeds :
      List (String × PostgresOptions) → List (String × PostgresResource) → Act (Unit {0})
  unfolding exec_postgres_file for_each collect_sql_files truncate_postgres lookup
  apply_postgres_seeds opts res =
      for_each
        (λ (name, cfg). instance_of res name (cfg.apply_seeds && non_empty cfg.seed_paths) (λ r.
          when (non_empty cfg.truncate_tables_before_seed) (
            or_wrap (codes "apply " ++ labelled "postgres[" name "] truncate before seed")
              (truncate_postgres out r.dsn (map codes cfg.truncate_tables_before_seed)))
          >> files_run (exec_postgres_file r.dsn) "postgres[" name "] collect seeds" "] seed file "
              cfg.strict_path cfg.seed_paths))
        opts

  -- `applyClickHouseMigrations`
  unfoldable pub apply_clickhouse_migrations :
      List (String × ClickHouseOptions) → List (String × ClickHouseResource) → Act (Unit {0})
  unfolding exec_clickhouse_file for_each collect_sql_files lookup
  apply_clickhouse_migrations opts res =
      for_each
        (λ (name, cfg).
          instance_of res name (cfg.apply_migrations && non_empty cfg.migration_paths) (λ r.
            files_run (exec_clickhouse_file r.dsn) "clickhouse[" name "] collect migrations"
              "] migration file " cfg.strict_path cfg.migration_paths))
        opts

  -- `applyClickHouseSeeds`
  unfoldable pub apply_clickhouse_seeds :
      List (String × ClickHouseOptions) → List (String × ClickHouseResource) → Act (Unit {0})
  unfolding exec_clickhouse_file for_each collect_sql_files lookup
  apply_clickhouse_seeds opts res =
      for_each
        (λ (name, cfg). instance_of res name (cfg.apply_seeds && non_empty cfg.seed_paths) (λ r.
          files_run (exec_clickhouse_file r.dsn) "clickhouse[" name "] collect seeds" "] seed file "
            cfg.strict_path cfg.seed_paths))
        opts
