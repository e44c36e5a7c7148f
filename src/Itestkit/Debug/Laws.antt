-- ===== src/Itestkit/Debug/Laws.antt =====
-- What is printed of a stack does not depend on its secrets.
use Prim.Native.String.{◌++◌}
use aeternixth_go_lib.Prelude.{
  ℕ, String, List, [], ◌∷◌, Option, none, some, ◌≡◌, ◌⊎◌, inl, inr, refl, flat_map, ap, sym, ◌∙◌,
  arith,
}
use aeternixth_go_lib.Prelude
use mathlib.Core.Path.{ap₂}
use aeternixth_go_lib.Itestkit.Setup.Phases.{Services}
use aeternixth_go_lib.Itestkit.Debug.{
  UrlLibrary, sanitize_dsn, sanitized, nop_logger, resolve_logger, Printed, print_lines,
  connection_lines, print_connection_info, postgres_lines, clickhouse_lines, redis_lines,
  kafka_lines, mock_lines, local_lines,
}

-- Two maps with the same names in the same order, and with related resources.
abbrev pub Pairwise :
    {A : Type 0} → (A → A → Type 0) → List (String × A) → List (String × A) → Type 0
Pairwise R [] [] = Unit
Pairwise R ((name, r) ∷ rest) ((name', r') ∷ rest') =
    (name ≡ name') × R r r' × Pairwise R rest rest'
Pairwise R _ _ = ⊥

flat_map-Pairwise :
    {A : Type 0} (R : A → A → Type 0) (lines : String × A → List String)
    → ((name : String) (r r' : A) → R r r' → lines (name, r) ≡ lines (name, r'))
    → (xs ys : List (String × A)) → Pairwise R xs ys
    → flat_map lines xs ≡ flat_map lines ys
unfolding flat_map
flat_map-Pairwise R lines same [] [] h = refl
flat_map-Pairwise R lines same ((name, r) ∷ rest) ((name', r') ∷ rest') (e, k, h) =
    ap₂ Prelude.◌++◌ (ap (λ (n : String). lines (n, r)) e ∙ same name' r r' k)
      (flat_map-Pairwise R lines same rest rest' h)
flat_map-Pairwise R lines same [] (y ∷ ys) h = absurd h
flat_map-Pairwise R lines same (x ∷ xs) [] h = absurd h

module _ (lib : UrlLibrary) where
  open lib use {Parts, parse, render}

  -- The same DSN, or two that differ in nothing but the passwords of their users.
  abbrev pub SameButPassword : String → String → Type 0
  SameButPassword dsn dsn' =
      (dsn ≡ dsn')
      ⊎ ((user : String) × (secret : String) × (secret' : String) × (parts : Parts) × (parse dsn
            ≡ some (record {
              user = some (record { username = user; pass = some secret });
              parts = parts;
            }))
          × (parse dsn'
              ≡ some (record {
                user = some (record { username = user; pass = some secret' });
                parts = parts;
              })))

  -- Two stacks that differ, in what is printed, in the passwords of the databases only.
  abbrev pub SameButSecrets : Services → Services → Type 0
  SameButSecrets s s' =
      Pairwise (λ r r'. SameButPassword r.dsn r'.dsn) s.postgres_map s'.postgres_map
      × Pairwise (λ r r'. SameButPassword r.dsn r'.dsn × SameButPassword r.http_dsn r'.http_dsn)
          s.clickhouse_map s'.clickhouse_map
      × Pairwise (λ r r'. r.addr ≡ r'.addr) s.redis_map s'.redis_map
      × Pairwise (λ r r'. r.brokers ≡ r'.brokers) s.kafka_map s'.kafka_map
      × Pairwise (λ r r'. (r.provider ≡ r'.provider) × (r.base_url ≡ r'.base_url)) s.mock_map
          s'.mock_map
      × Pairwise (λ r r'. (r.endpoint ≡ r'.endpoint) × (r.region ≡ r'.region)) s.local_map
          s'.local_map

  sanitize_dsn-same :
      (dsn dsn' : String) → SameButPassword dsn dsn' → sanitize_dsn lib dsn ≡ sanitize_dsn lib dsn'
  unfolding sanitize_dsn
  sanitize_dsn-same dsn dsn' (inl e) = ap (λ (d : String). sanitized lib d (parse d)) e
  sanitize_dsn-same dsn dsn' (inr (user, secret, secret', parts, e, e')) = rw (e, e') refl

  connection_lines-same :
      (s s' : Services) → SameButSecrets s s' → connection_lines lib s ≡ connection_lines lib s'
  unfolding connection_lines
  connection_lines-same s s' (p, c, r, k, m, l) =
      let ps =
        flat_map-Pairwise _ (postgres_lines lib)
          (λ name r r' e.
            ap (λ (d : String). ("  postgres[" ++ (name ++ ("] = " ++ d))) ∷ [])
              (sanitize_dsn-same r.dsn r'.dsn e))
          s.postgres_map s'.postgres_map p in
      let cs =
        flat_map-Pairwise _ (clickhouse_lines lib)
          (λ name r r' (e, f).
            ap₂
              (λ (d : String) (d' : String).
                ("  clickhouse[" ++ (name ++ ("] = " ++ d)))
                ∷ ("  clickhouse[" ++ (name ++ ("] http = " ++ d')))
                ∷ [])
              (sanitize_dsn-same r.dsn r'.dsn e) (sanitize_dsn-same r.http_dsn r'.http_dsn f))
          s.clickhouse_map s'.clickhouse_map c in
      let rs =
        flat_map-Pairwise _ (redis_lines lib) (λ name r r' e. rw e refl) s.redis_map s'.redis_map
          r in
      let ks =
        flat_map-Pairwise _ (kafka_lines lib) (λ name r r' e. rw e refl) s.kafka_map s'.kafka_map
          k in
      let ms =
        flat_map-Pairwise _ (mock_lines lib) (λ name r r' (e, f). rw (e, f) refl) s.mock_map
          s'.mock_map m in
      let ls =
        flat_map-Pairwise _ (local_lines lib) (λ name r r' (e, f). rw (e, f) refl) s.local_map
          s'.local_map l in
      cc

  print_nothing :
      {User Test : Type 0} (lines : List String) (printed : Printed User Test)
      → print_lines nop_logger lines printed ≡ printed
  print_nothing [] printed = refl
  print_nothing (line ∷ lines) printed = print_nothing lines printed

  -- What is printed of a stack, and to which logger, is the same for two stacks that differ in the
  -- passwords of the databases' URLs and in what is not printed: in the URLs of Redis, in
  -- LocalStack's keys and in the passwords kept beside the URLs; without a logger and a test
  -- nothing is printed.
  pub print_connection_info-secrets :
      {User Test : Type 0} (s s' : Services) (user : Option User) (tb : Option Test)
      (printed : Printed User Test)
      → SameButSecrets s s'
      → (print_connection_info lib s (resolve_logger user tb) printed
          ≡ print_connection_info lib s' (resolve_logger user tb) printed)
        × (print_connection_info lib s
              (resolve_logger {User = User} {Test = Test} none none)
              printed
            ≡ printed)
  unfolding print_connection_info resolve_logger
  print_connection_info-secrets s s' user tb printed h = (
    ap (λ (lines : List String). print_lines (resolve_logger user tb) lines printed)
        (connection_lines-same s s' h),
    print_nothing (connection_lines lib s) printed,
  )
