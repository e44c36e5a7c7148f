-- ===== src/Tracer/Laws.antt =====
-- What New and Shutdown promise (observability/tracer/tracer.go).
use aeternixth_go_lib.Prelude.{
  ℕ, ◌+◌, Bool, true, false, String, List, [], ◌∷◌, Option, none, some, ◌≡◌, refl, ◌⊎◌, inl, inr,
  if◌then◌else◌, ap, ◌++◌, ◌≢◌, lookup, str_eq, eq_iff, Bool-cases, arith,
}
use aeternixth_go_lib.Tracer.{
  Config, Provider, TracerProvider, noop_provider, Globals, TracerError, Machine, Exporters,
  with_exporter, with_override, disabled_provider, new_provider, shutdown, shutdowns, override,
  build_span_exporter, build_resource, detect_service_name, or_detected, Processor, no_processor,
  syncer, batcher, sdk_provider, unsupported_exporter, exporter_failed, some_exporter,
  with_processor,
}

-- The answers of calls that do nothing.
abbrev pub nils : List (Option String) → List (Option String)
nils [] = []
nils (answer ∷ answers) = none ∷ nils answers

-- The last option does not override, or there is none.
abbrev pub Unset : List (Option ℕ) → Type 0
Unset options = (options ≡ []) ⊎ ((before : List (Option ℕ)) × (options ≡ before ++ none ∷ []))

last_option :
    (options : List (Option ℕ)) (o : Option ℕ)
    → ((options ≡ []) × (override options o ≡ o))
      ⊎ ((before : List (Option ℕ)) × (options ≡ before ++ override options o ∷ []))
unfolding override
last_option [] o = inl (refl, refl)
last_option (e ∷ options) o = elim (last_option options e) [
  | inl (empty, same) ↦ inr ([], rw empty refl)
  | inr (before, last) ↦ inr (e ∷ before, ap (λ rest. e ∷ rest) last)
]

detected_lem :
    (m : Machine) (name : List ℕ)
    → (name ≢ [] → or_detected m name ≡ name)
      × (name ≡ [] → or_detected m name ≡ detect_service_name m)
detected_lem m [] = (λ h. absurd (h refl), λ h. refl)
detected_lem m (c ∷ name) = (λ h. refl, λ h. cc)

module _ {Rate : Type 0} where
  idle :
      (answers : List (Option String)) (tp : TracerProvider Rate)
      (res : Option (List (String × List ℕ)))
      → shutdowns answers (record { tp = tp; res = res; pending = false }) ≡ (nils answers, 0)
  unfolding shutdowns shutdown
  idle [] tp res = refl
  idle (answer ∷ answers) tp res = ap (λ x. (none ∷ x.0, 0 + x.1)) (idle answers tp res)

  once :
      (answer : Option String) (answers : List (Option String)) (tp : TracerProvider Rate)
      (res : Option (List (String × List ℕ)))
      → shutdowns (answer ∷ answers) (record { tp = tp; res = res; pending = true })
        ≡ (answer ∷ nils answers, 1)
  unfolding shutdowns shutdown
  once answer answers tp res = ap (λ x. (answer ∷ x.0, 1 + x.1)) (idle answers tp res)

  module _ (m : Machine) (make : Exporters) (options : List (Option ℕ)) (g : Globals Rate) where
    -- The exporter that the configuration names, or why there is none.
    abbrev pub Named : Config Rate → Option ℕ ⊎ TracerError → Type 0
    Named cfg (inl none) = cfg.exporter ≡ "noop"
    Named cfg (inl (some e)) =
        ((cfg.exporter ≡ "stdout") × (make.stdout ≡ inl e))
        ⊎ ((cfg.exporter ≡ "otlp_http") × (make.otlp_http cfg.endpoint cfg.insecure ≡ inl e))
    Named cfg (inr (exporter_failed err)) =
        ((cfg.exporter ≡ "stdout") × (make.stdout ≡ inr err))
        ⊎ ((cfg.exporter ≡ "otlp_http") × (make.otlp_http cfg.endpoint cfg.insecure ≡ inr err))
    Named cfg (inr (unsupported_exporter name)) =
        (name ≡ cfg.exporter) × (name ≢ "noop") × (name ≢ "stdout") × (name ≢ "otlp_http")

    -- How the spans leave: the exporter of the last option gets each at once; where that is not
    -- set, the configured one gets them in batches from a queue of the configured size.
    abbrev pub Exports : Config Rate → Processor → Type 0
    Exports cfg (syncer e) = (before : List (Option ℕ)) × (options ≡ before ++ some e ∷ [])
    Exports cfg no_processor = Unset options × Named cfg (inl none)
    Exports cfg (batcher e size) =
        Unset options × Named cfg (inl (some e)) × (size ≡ cfg.span_queue_size)

    -- The attributes: the configured name, or else the detected one, the version, the environment,
    -- and the host's name where it is known.
    abbrev pub Describes : Config Rate → List (String × List ℕ) → Type 0
    Describes cfg attrs =
        (cfg.service_name ≢ [] → lookup "service.name" attrs ≡ some cfg.service_name)
        × (cfg.service_name ≡ [] → lookup "service.name" attrs ≡ some (detect_service_name m))
        × (lookup "service.version" attrs ≡ some cfg.service_version)
        × (lookup "deployment.environment" attrs ≡ some cfg.deploy_env)
        × ((host : List ℕ) → m.hostname ≡ inl host → lookup "host.name" attrs ≡ some host)
        × ((err : String) → m.hostname ≡ inr err → lookup "host.name" attrs ≡ none)

    -- A provider of the SDK as it is configured.
    abbrev pub Configured : Config Rate → Provider Rate → Type 0
    Configured cfg p =
        (attrs : List (String × List ℕ)) × (way : Processor) × (p.tp
          ≡ sdk_provider attrs cfg.sample_rate way)
        × (p.res ≡ some attrs)
        × Describes cfg attrs
        × Exports cfg way

    -- What `New` leaves: by an error, by a provider of the SDK, by one that records nothing.
    abbrev pub Made : Config Rate → Bool → (Provider Rate ⊎ TracerError) × Globals Rate → Type 0
    Made cfg enabled (inr err, g') =
        (enabled ≡ true) × Unset options × Named cfg (inr err) × (g' ≡ g)
    Made cfg true (inl p, g') =
        (g' ≡ some p.tp)
        × Configured cfg p
        × ((answer : Option String) (answers : List (Option String))
            → shutdowns (answer ∷ answers) p ≡ (answer ∷ nils answers, 1))
    Made cfg false (inl p, g') =
        (g' ≡ g)
        × (p.tp ≡ noop_provider)
        × ((answers : List (Option String)) → shutdowns answers p ≡ (nils answers, 0))

    stdout-Named :
        (cfg : Config Rate) (answer : ℕ ⊎ String)
        → cfg.exporter ≡ "stdout"
        → make.stdout ≡ answer
        → Named cfg (some_exporter answer)
    stdout-Named cfg (inl e) n a = inl (n, a)
    stdout-Named cfg (inr err) n a = inl (n, a)

    otlp_http-Named :
        (cfg : Config Rate) (answer : ℕ ⊎ String)
        → cfg.exporter ≡ "otlp_http"
        → make.otlp_http cfg.endpoint cfg.insecure ≡ answer
        → Named cfg (some_exporter answer)
    otlp_http-Named cfg (inl e) n a = inr (n, a)
    otlp_http-Named cfg (inr err) n a = inr (n, a)

    not_text : (s t : String) → str_eq s t ≡ false → s ≢ t
    not_text s t h = ground (arith, eq_iff s t)

    exporter-Named : (cfg : Config Rate) → Named cfg (build_span_exporter make cfg)
    unfolding build_span_exporter
    exporter-Named cfg = elim (Bool-cases (str_eq cfg.exporter "noop")) [
      | inl noop ↦ rw (build_span_exporter, noop) ((eq_iff cfg.exporter "noop").0 noop)
      | inr a ↦ elim (Bool-cases (str_eq cfg.exporter "stdout")) [
        | inl out ↦
            rw (build_span_exporter, a, out)
              (stdout-Named cfg make.stdout ((eq_iff cfg.exporter "stdout").0 out) refl)
        | inr b ↦ elim (Bool-cases (str_eq cfg.exporter "otlp_http")) [
          | inl otlp ↦
              rw (build_span_exporter, a, b, otlp)
                (otlp_http-Named cfg (make.otlp_http cfg.endpoint cfg.insecure)
                  ((eq_iff cfg.exporter "otlp_http").0 otlp) refl)
          | inr c ↦
              rw (build_span_exporter, a, b, c)
                (refl, not_text _ _ a, not_text _ _ b, not_text _ _ c)
        ]
      ]
    ]

    resource-Describes : (cfg : Config Rate) → Describes cfg (build_resource m cfg)
    unfolding build_resource lookup
    resource-Describes cfg =
        let (given, missing) = detected_lem m cfg.service_name in
        (
          λ h. ap some (given h),
          λ h. ap some (missing h),
          refl,
          refl,
          λ host e. rw e refl,
          λ err e. rw e refl,
        )

    processor_lem :
        (cfg : Config Rate) (way : Processor)
        → Exports cfg way
        → Made cfg true (with_processor m cfg way)
    processor_lem cfg way e = (
      refl,
      (build_resource m cfg, way, refl, refl, resource-Describes cfg, e),
      λ a more. once a more _ _,
    )

    exporter_lem :
        (cfg : Config Rate) (answer : Option ℕ ⊎ TracerError)
        → Unset options
        → Named cfg answer
        → Made cfg true (with_exporter m cfg g answer)
    exporter_lem cfg (inr err) o e = (refl, o, e, refl)
    exporter_lem cfg (inl none) o e = processor_lem cfg no_processor (o, e)
    exporter_lem cfg (inl (some x)) o e =
        processor_lem cfg (batcher x cfg.span_queue_size) (o, e, refl)

    override_lem :
        (cfg : Config Rate) (answer : Option ℕ)
        → ((options ≡ []) × (answer ≡ none))
          ⊎ ((before : List (Option ℕ)) × (options ≡ before ++ answer ∷ []))
        → Made cfg true (with_override m make cfg g answer)
    override_lem cfg (some x) (inl (empty, same)) = cc
    override_lem cfg (some x) (inr last) = processor_lem cfg (syncer x) last
    override_lem cfg none (inl (empty, same)) =
        exporter_lem cfg (build_span_exporter make cfg) (inl empty) (exporter-Named cfg)
    override_lem cfg none (inr last) =
        exporter_lem cfg (build_span_exporter make cfg) (inr last) (exporter-Named cfg)

    -- An enabled tracer is the SDK's provider with the configured rate, a resource with the
    -- configured or detected name, the version, the environment and the host, and the exporter of
    -- the last option, or else the configured one in batches; it is the global one, and of any
    -- number of Shutdowns the first alone calls the SDK's, and the others answer nil. Where no
    -- option overrides and the exporter cannot be built or is unknown, it is that error, and the
    -- globals stay. A disabled one records nothing, leaves the globals, and its Shutdowns call
    -- nothing.
    pub new_provider_lem :
        (cfg : Config Rate) → Made cfg cfg.enabled (new_provider m make cfg options g)
    unfolding new_provider
    new_provider_lem cfg =
        elim cfg.enabled
          as (λ b. Made cfg b (
            if b
            then with_override m make cfg g (override options none)
            else (inl disabled_provider, g))) [
              | true ↦ override_lem cfg (override options none) (last_option options none)
              | false ↦ (refl, refl, λ more. idle more _ _)
            ]
