-- ===== src/Itestkit/Setup/Laws.antt =====
-- The phases of `StartStack` follow their plans (itestkit/migration.go, topic.go, httpmock.go,
-- localstack.go, cleanup.go and stack.go).
use aeternixth_go_lib.Prelude.{
  ℕ, Bool, true, false, String, List, [], ◌∷◌, Option, none, some, codes, lookup, map, ◌⊎◌, ◌≡◌,
  refl,
}
use aeternixth_go_lib.Itestkit.Files.{FileSystem}
use aeternixth_go_lib.Itestkit.Files.Collect.{collect_sql_files, read_file, FileError}
use aeternixth_go_lib.Itestkit.Identifiers.{truncate_statement}
use aeternixth_go_lib.Itestkit.Sqlrunner.{split_sql}
use aeternixth_go_lib.Itestkit.Setup.Sql.{
  run_postgres, run_clickhouse, truncate_postgres, drop_postgres_public_schema, exec_postgres_file,
  exec_clickhouse_file, instance_of, non_empty, when, files_run,
}
use aeternixth_go_lib.Itestkit.Setup.Plan.{
  Task, one, with_value, is_error, Follows, call_fails, pure-Follows, or_wrap-Follows, then-Follows,
  for_each-Follows, value-Follows, call-Follows,
}
use aeternixth_go_lib.Itestkit.Setup.Phases.{
  asked_plan, script_plan, scripts_plan, drop_plan, truncate_plan,
}
use aeternixth_go_lib.Itestkit.Outside.{
  Outside, Database, postgres_db, clickhouse_db, Event, open_db, ping_db, exec_db, History, Failure,
  file_error, Act, pure, ◌>>=◌, or_wrap, from_file, call,
}

module _ (out : Outside) where
  -- A choice by an optional value.
  pub choice-Follows :
      {A : Type 0} (o : Option A) (good : A → Act (Unit {0})) (bad : Act (Unit {0}))
      (f : A → List Task) (p : List Task)
      → ((a : A) → Follows out (good a) (f a))
      → Follows out bad p
      → Follows out (elim o [ none ↦ bad | some a ↦ good a ]) (elim o [ none ↦ p | some a ↦ f a ])
  choice-Follows none good bad f p g b = b
  choice-Follows (some a) good bad f p g b = g a

  pub asked-Follows :
      {Res : Type 0} (asked : Bool) (res : List (String × Res)) (name : String)
      (body : Res → Act (Unit {0})) (f : Res → List Task)
      → ((r : Res) → Follows out (body r) (f r))
      → Follows out (instance_of res name asked body) (asked_plan asked res name f)
  asked-Follows false res name body f g = pure-Follows out
  asked-Follows true res name body f g =
      choice-Follows (lookup name res) body (pure tt) f [] g (pure-Follows out)

  pub wrapped_call :
      (label : List ℕ) (e : Event)
      → ((h : History) → call_fails out h e ≡ is_error (out.fails h e))
      → Follows out (or_wrap label (call out e)) (one e)
  wrapped_call label e f = or_wrap-Follows out label _ _ (call-Follows out e f)

  run_postgres-Follows :
      (dsn : String) (script label : List ℕ)
      → Follows out (run_postgres out dsn script label) (script_plan postgres_db dsn script)
  unfolding run_postgres call_fails
  run_postgres-Follows dsn script label =
      then-Follows out _ _ _ _
        (then-Follows out _ _ _ _ (wrapped_call _ (open_db postgres_db dsn) (λ h. refl))
          (wrapped_call _ (ping_db postgres_db dsn) (λ h. refl)))
        (wrapped_call _ (exec_db postgres_db dsn script) (λ h. refl))

  run_clickhouse-Follows :
      (dsn : String) (script label : List ℕ)
      → Follows out (run_clickhouse out dsn script label) (script_plan clickhouse_db dsn script)
  unfolding run_clickhouse call_fails
  run_clickhouse-Follows dsn script label =
      then-Follows out _ _ _ _
        (then-Follows out _ _ _ _ (wrapped_call _ (open_db clickhouse_db dsn) (λ h. refl))
          (wrapped_call _ (ping_db clickhouse_db dsn) (λ h. refl)))
        (for_each-Follows out _ _ (split_sql script)
          (λ stmt. wrapped_call _ (exec_db clickhouse_db dsn stmt) (λ h. refl)))

  pub drop-Follows :
      (fs : FileSystem) (asked : Bool) (label : List ℕ) (dsn : String)
      → Follows out
          (when asked (or_wrap label (drop_postgres_public_schema out dsn)))
          (drop_plan fs asked dsn)
  unfolding drop_postgres_public_schema call_fails
  drop-Follows fs false label dsn = pure-Follows out
  drop-Follows fs true label dsn = or_wrap-Follows out label _ _ (
      then-Follows out _ _ _ _ (wrapped_call _ (open_db postgres_db dsn) (λ h. refl))
        (wrapped_call _ (exec_db postgres_db dsn _) (λ h. refl)))

  pub truncate-Follows :
      (fs : FileSystem) (label : List ℕ) (tables : List String) (dsn : String)
      → Follows out
          (when (non_empty tables) (or_wrap label (truncate_postgres out dsn (map codes tables))))
          (truncate_plan fs tables dsn)
  unfolding truncate_postgres truncate_statement call_fails
  truncate-Follows fs label [] dsn = pure-Follows out
  truncate-Follows fs label (t ∷ tables) dsn = or_wrap-Follows out label _ _ (
      then-Follows out _ _ _ _ (wrapped_call _ (open_db postgres_db dsn) (λ h. refl))
        (wrapped_call _ (exec_db postgres_db dsn _) (λ h. refl)))

module _ (out : Outside) (fs : FileSystem) where
  from_file-Follows :
      {A : Type 0} (label : List ℕ) (r : A ⊎ FileError) (k : A → Act (Unit {0})) (f : A → List Task)
      → ((a : A) → Follows out (k a) (f a))
      → Follows out (or_wrap label (from_file r) >>= k) (with_value r f)
  from_file-Follows label r k f g =
      value-Follows out r (λ r. or_wrap label (from_file r)) k f (λ a. refl)
        (λ e. (Failure.wrap label (file_error e), refl)) g

  pub exec_postgres_file-Follows :
      (dsn : String) (path label : List ℕ)
      → Follows out
          (exec_postgres_file out fs dsn path label)
          (with_value (read_file fs path) (script_plan postgres_db dsn))
  unfolding exec_postgres_file
  exec_postgres_file-Follows dsn path label =
      value-Follows out (read_file fs path) from_file _ _ (λ a. refl) (λ e. (file_error e, refl))
        (λ script. run_postgres-Follows out dsn script label)

  pub exec_clickhouse_file-Follows :
      (dsn : String) (path label : List ℕ)
      → Follows out
          (exec_clickhouse_file out fs dsn path label)
          (with_value (read_file fs path) (script_plan clickhouse_db dsn))
  unfolding exec_clickhouse_file
  exec_clickhouse_file-Follows dsn path label =
      value-Follows out (read_file fs path) from_file _ _ (λ a. refl) (λ e. (file_error e, refl))
        (λ script. run_clickhouse-Follows out dsn script label)

  pub files_run-Follows :
      (db : Database) (dsn : String) (exec : List ℕ → List ℕ → Act (Unit {0}))
      (kind name collecting what : String) (strict : Bool) (paths : List String)
      → ((f label : List ℕ)
          → Follows out (exec f label) (with_value (read_file fs f) (script_plan db dsn)))
      → Follows out
          (files_run out fs exec kind name collecting what strict paths)
          (scripts_plan fs db dsn strict paths)
  files_run-Follows db dsn exec kind name collecting what strict paths g =
      from_file-Follows _ (collect_sql_files fs strict (map codes paths)) _ _
        (λ found. for_each-Follows out _ _ found.files (λ f. or_wrap-Follows out _ _ _ (g f _)))
