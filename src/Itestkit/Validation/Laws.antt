-- ===== src/Itestkit/Validation/Laws.antt =====
-- itestkit/validation.go: the accepted options, and what the defaults change.
use aeternixth_go_lib.Prelude.{
  ℕ, length, List, ◌⊎◌, true, ◌==◌, String, [], ◌∷◌, Option, none, some, ◌≡◌, ◌≢◌, ◌≤◌, ◌↔◌, refl,
  arith, if◌then◌else◌, str_eq, eq_iff, ◌*◌, All, or_else,
}
use aeternixth_go_lib.Itestkit.Options.{StackOptions, TimeoutOptions}
use aeternixth_go_lib.Itestkit.Validation.{
  no_service_configured, check_names, check_mocks, total, validate_options, second, or_default,
  apply_defaults,
}
use aeternixth_go_lib.Itestkit.Validation.Names.{Named, IsMock, check_names_iff, check_mocks_iff}

or_else_iff : {A : Type 0} (p q : Option A) → (or_else p q ≡ none) ↔ ((p ≡ none) × (q ≡ none))
or_else_iff none q = ground arith
or_else_iff (some v) q = ground arith

-- The verdict of a test and of six checks in a row.
checks_iff :
    {A : Type 0} (n : ℕ) (err : A) (p c r k m l : Option A)
    → ((if n == 0 then some err else or_else p (or_else c (or_else r (or_else k (or_else m l)))))
        ≡ none)
      ↔ ((n ≢ 0) × (p ≡ none) × (c ≡ none) × (r ≡ none) × (k ≡ none) × (m ≡ none) × (l ≡ none))
checks_iff n err p c r k m l = ground (
  arith,
  or_else_iff p (or_else c (or_else r (or_else k (or_else m l)))),
  or_else_iff c (or_else r (or_else k (or_else m l))),
  or_else_iff r (or_else k (or_else m l)),
  or_else_iff k (or_else m l),
  or_else_iff m l,
)

-- Some service is configured.
abbrev pub Configured : StackOptions → Type 0
Configured opts =
    (opts.postgres ≢ [])
    ⊎ ((opts.click_house ≢ [])
        ⊎ ((opts.redis ≢ [])
            ⊎ ((opts.kafka ≢ []) ⊎ ((opts.http_mocks ≢ []) ⊎ (opts.local_stack ≢ [])))))

length_iff : {A : Type 0} (xs : List A) → (length xs ≢ 0) ↔ (xs ≢ [])
length_iff [] = ground arith
length_iff (x ∷ xs) = ground arith

total_iff : (opts : StackOptions) → (total opts ≢ 0) ↔ Configured opts
total_iff opts = ground (
  arith,
  length_iff opts.postgres,
  length_iff opts.click_house,
  length_iff opts.redis,
  length_iff opts.kafka,
  length_iff opts.http_mocks,
  length_iff opts.local_stack,
)

-- The options are accepted exactly where some service is configured, every name matches
-- ^[a-z][a-z0-9_-]*$, and every HTTP mock has one of the two providers, with no expectations if
-- that is WireMock.
pub validate_options_iff :
    (opts : StackOptions)
    → (validate_options opts ≡ none) ↔ (
        Configured opts
        × All Named opts.postgres
        × All Named opts.click_house
        × All Named opts.redis
        × All Named opts.kafka
        × All IsMock opts.http_mocks
        × All Named opts.local_stack)
unfolding validate_options
validate_options_iff opts =
    let (to, from) =
      checks_iff (total opts) no_service_configured (check_names "postgres" opts.postgres)
        (check_names "clickhouse" opts.click_house) (check_names "redis" opts.redis)
        (check_names "kafka" opts.kafka) (check_mocks opts.http_mocks)
        (check_names "localstack" opts.local_stack) in
    let some_service = total_iff opts in
    let ps = check_names_iff "postgres" opts.postgres in
    let cs = check_names_iff "clickhouse" opts.click_house in
    let rs = check_names_iff "redis" opts.redis in
    let ks = check_names_iff "kafka" opts.kafka in
    let ms = check_mocks_iff opts.http_mocks in
    let ls = check_names_iff "localstack" opts.local_stack in
    (
      λ h.
          let (t, p, c, r, k, m, l) = to h in
          (some_service.0 t, ps.0 p, cs.0 c, rs.0 r, ks.0 k, ms.0 m, ls.0 l),
      λ h.
          let (t, p, c, r, k, m, l) = h in
          from (some_service.1 t, ps.1 p, cs.1 c, rs.1 r, ks.1 k, ms.1 m, ls.1 l),
    )

-- A timeout that was given stays, also one whose word is negative; and none is zero.
abbrev pub Kept : ℕ → ℕ → Type 0
Kept given t = (t ≢ 0) × (given ≢ 0 → t ≡ given)

or_default_lem :
    (t d : ℕ) → 1 ≤ d → (or_default (or_default t d) d ≡ or_default t d) × Kept t (or_default t d)
or_default_lem t d h = ground arith

named_lem :
    (name : String)
    → (if str_eq (if str_eq name "" then "itest" else name) ""
        then "itest"
        else (if str_eq name "" then "itest" else name))
      ≡ (if str_eq name "" then "itest" else name)
named_lem name = ground (arith, eq_iff name "")

project_named : (name : String) → (if str_eq name "" then "itest" else name) ≢ ""
project_named name = ground (arith, eq_iff name "", eq_iff "itest" "")

abbrev pub AllKept : TimeoutOptions → TimeoutOptions → Type 0
AllKept given t =
    Kept given.startup_timeout t.startup_timeout
    × Kept given.migration_timeout t.migration_timeout
    × Kept given.seed_timeout t.seed_timeout
    × Kept given.topic_timeout t.topic_timeout
    × Kept given.cleanup_timeout t.cleanup_timeout
    × Kept given.http_mock_setup_timeout t.http_mock_setup_timeout
    × Kept given.local_stack_init_timeout t.local_stack_init_timeout

-- To apply the defaults twice is to apply them once; they leave the verdict of the validation as
-- it is, and after them the project has a name, the network is enabled, and every timeout is as it
-- was given, also a negative one, but none is zero.
pub apply_defaults_lem :
    (opts : StackOptions)
    → (apply_defaults (apply_defaults opts) ≡ apply_defaults opts)
      × (validate_options (apply_defaults opts) ≡ validate_options opts)
      × ((apply_defaults opts).project_name ≢ "")
      × ((apply_defaults opts).network.enabled ≡ true)
      × AllKept opts.timeouts (apply_defaults opts).timeouts
unfolding apply_defaults validate_options
apply_defaults_lem opts =
    let ts = opts.timeouts in
    let (s2, s1) = or_default_lem ts.startup_timeout (120 * second) (omega arith) in
    let (m2, m1) = or_default_lem ts.migration_timeout (60 * second) (omega arith) in
    let (d2, d1) = or_default_lem ts.seed_timeout (60 * second) (omega arith) in
    let (t2, t1) = or_default_lem ts.topic_timeout (30 * second) (omega arith) in
    let (c2, c1) = or_default_lem ts.cleanup_timeout (30 * second) (omega arith) in
    let (h2, h1) = or_default_lem ts.http_mock_setup_timeout (30 * second) (omega arith) in
    let (l2, l1) = or_default_lem ts.local_stack_init_timeout (60 * second) (omega arith) in
    (
      rw (named_lem opts.project_name, s2, m2, d2, t2, c2, h2, l2),
      refl,
      project_named opts.project_name,
      refl,
      (s1, m1, d1, t1, c1, h1, l1),
    )
