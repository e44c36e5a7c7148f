-- ===== src/Tracer.antt =====
-- observability/tracer/tracer.go. OpenTelemetry and the operating system are parameters; an exporter
-- is known by a number, and texts that are cut are code points. Sample rates are of any type.
pub mod Laws
use aeternixth_go_lib.Prelude.{
  ℕ, suc, ◌+◌, Bool, true, false, String, List, [], ◌∷◌, ◌++◌, reverse, Option, none, some, ◌⊎◌,
  inl, inr, codes, codes_eq, str_eq, if◌then◌else◌,
}
use aeternixth_go_lib.Itestkit.Files.Paths.{base, has_suffix}

pub record Config (Rate : Type 0) : Type 0 where
  pub enabled : Bool
  pub service_name : List ℕ
  pub service_version : List ℕ
  pub deploy_env : List ℕ
  pub exporter : String
  pub endpoint : String
  pub insecure : Bool
  pub sample_rate : Rate
  pub span_queue_size : ℕ

-- How finished spans reach an exporter: not at all, at once, or in batches from a queue.
pub data Processor : Type 0 where
  no_processor : Processor
  syncer : ℕ → Processor
  batcher : ℕ → ℕ → Processor

-- A tracer provider of the SDK, or the one that records nothing.
pub data TracerProvider (Rate : Type 0) : Type 0 where
  noop_provider : TracerProvider Rate
  sdk_provider : List (String × List ℕ) → Rate → Processor → TracerProvider Rate

-- `Provider`: its meter provider records nothing in any case. `pending` is its `shutdown` while that
-- is not nil.
pub record Provider (Rate : Type 0) : Type 0 where
  pub tp : TracerProvider Rate
  pub res : Option (List (String × List ℕ))
  pub pending : Bool

-- The globals of OpenTelemetry that `New` sets: the tracer provider, while the meter provider and
-- the propagator are set with it.
abbrev pub Globals : Type 0 → Type 0
Globals Rate = Option (TracerProvider Rate)

pub data TracerError : Type 0 where
  unsupported_exporter : String → TracerError
  exporter_failed : String → TracerError

-- What the machine answers: the host's name, the executable's path and the arguments.
pub record Machine : Type 0 where
  pub hostname : List ℕ ⊎ String
  pub executable : List ℕ ⊎ String
  pub arguments : List (List ℕ)

-- The constructors of exporters, from the endpoint and whether it is insecure
pub record Exporters : Type 0 where
  pub stdout : ℕ ⊎ String
  pub otlp_http : String → Bool → ℕ ⊎ String

unfoldable pub drop_first : ℕ → List ℕ → List ℕ
drop_first ℕ.zero s = s
drop_first (suc n) [] = []
drop_first (suc n) (c ∷ s) = drop_first n s

-- `strings.TrimSuffix(s, ".exe")`
abbrev without_exe : List ℕ → List ℕ
without_exe s = if has_suffix s (codes ".exe") then reverse (drop_first 4 (reverse s)) else s

-- `detectServiceName`
unfoldable pub detect_service_name : Machine → List ℕ
unfolding base has_suffix drop_first
detect_service_name m = elim m.executable [
  | inl exe ↦ without_exe (base exe)
  | inr err ↦ elim m.arguments [ [] ↦ codes "unknown" | ◌∷◌ arg args ↦ without_exe (base arg) ]
]

abbrev pub or_detected : Machine → List ℕ → List ℕ
or_detected m [] = detect_service_name m
or_detected m (c ∷ s) = c ∷ s

abbrev host_attribute : List ℕ ⊎ String → List (String × List ℕ)
host_attribute (inl host) = ("host.name", host) ∷ []
host_attribute (inr err) = []

abbrev pub some_exporter : ℕ ⊎ String → Option ℕ ⊎ TracerError
some_exporter (inl e) = inl (some e)
some_exporter (inr err) = inr (exporter_failed err)

-- The options, each of which sets the override: the last one counts, and it may be nil.
unfoldable pub override : List (Option ℕ) → Option ℕ → Option ℕ
override [] o = o
override (e ∷ options) o = override options e

module _ {Rate : Type 0} where
  -- `buildResource`
  unfoldable pub build_resource : Machine → Config Rate → List (String × List ℕ)
  unfolding detect_service_name
  build_resource m cfg =
      ("service.name", or_detected m cfg.service_name)
      ∷ ("service.version", cfg.service_version)
      ∷ ("deployment.environment", cfg.deploy_env)
      ∷ host_attribute m.hostname

  -- `buildSpanExporter`
  unfoldable pub build_span_exporter : Exporters → Config Rate → Option ℕ ⊎ TracerError
  build_span_exporter make cfg =
      if str_eq cfg.exporter "noop"
      then inl none
      else if str_eq cfg.exporter "stdout"
      then some_exporter make.stdout
      else if str_eq cfg.exporter "otlp_http"
      then some_exporter (make.otlp_http cfg.endpoint cfg.insecure)
      else inr (unsupported_exporter cfg.exporter)

  -- `newDisabledProvider`
  abbrev pub disabled_provider : Provider Rate
  disabled_provider = record { tp = noop_provider; res = none; pending = false }

  abbrev pub with_processor :
      Machine → Config Rate → Processor → (Provider Rate ⊎ TracerError) × Globals Rate
  with_processor m cfg p =
      let tp = sdk_provider (build_resource m cfg) cfg.sample_rate p in
      (inl (record { tp = tp; res = some (build_resource m cfg); pending = true }), some tp)

  abbrev pub with_exporter :
      Machine
      → Config Rate
      → Globals Rate
      → Option ℕ ⊎ TracerError
      → (Provider Rate ⊎ TracerError) × Globals Rate
  with_exporter m cfg g (inr err) = (inr err, g)
  with_exporter m cfg g (inl none) = with_processor m cfg no_processor
  with_exporter m cfg g (inl (some e)) = with_processor m cfg (batcher e cfg.span_queue_size)

  -- The choice between the override and an exporter of its own
  abbrev pub with_override :
      Machine
      → Exporters
      → Config Rate
      → Globals Rate
      → Option ℕ
      → (Provider Rate ⊎ TracerError) × Globals Rate
  with_override m make cfg g (some e) = with_processor m cfg (syncer e)
  with_override m make cfg g none = with_exporter m cfg g (build_span_exporter make cfg)

  -- `New`
  unfoldable pub new_provider :
      Machine
      → Exporters
      → Config Rate
      → List (Option ℕ)
      → Globals Rate
      → (Provider Rate ⊎ TracerError) × Globals Rate
  unfolding build_resource build_span_exporter override
  new_provider m make cfg options g =
      if cfg.enabled
      then with_override m make cfg g (override options none)
      else (inl disabled_provider, g)

  -- `Shutdown`: its answer, how often it calls the SDK's, and the provider after it. `answer` is
  -- what the SDK's returns.
  unfoldable pub shutdown : Option String → Provider Rate → Option String × ℕ × Provider Rate
  shutdown answer p = if p.pending then (answer, 1, record p { pending = false }) else (none, 0, p)

  -- Several calls, one after the other: their answers, and the calls of the SDK's.
  unfoldable pub shutdowns : List (Option String) → Provider Rate → List (Option String) × ℕ
  unfolding shutdown
  shutdowns [] p = ([], 0)
  shutdowns (answer ∷ answers) p =
      let (a, n, p') = shutdown answer p in
      let (rest, m) = shutdowns answers p' in (a ∷ rest, n + m)
