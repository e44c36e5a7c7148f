-- ===== src/Health/Handlers.antt =====
-- observability/health/handlers.go, server.go and health.go, and healthfiber/healthfiber.go: the
-- probes' handlers and where they are mounted. `encode` is `json.Marshal` on a readiness response.
use aeternixth_go_lib.Prelude.{
  ℕ, String, List, [], ◌∷◌, Option, none, some, ◌≡◌, ◌≢◌, arith, lookup, str_eq, eq_iff,
  if◌then◌else◌, Bool, true, false, Bool-cases, inl, inr,
}
use aeternixth_go_lib.Health.{Finish, Pinger, ReadyResponse, run_checks}

pub record HttpReply : Type 0 where
  pub status : ℕ
  pub content_type : String
  pub body : String

abbrev pub path_livez : String
path_livez = "/health/livez"

abbrev pub path_readyz : String
path_readyz = "/health/readyz"

abbrev pub path_metrics : String
path_metrics = "/metrics"

abbrev pub live_body : String
live_body = "{\"status\":\"alive\"}"

pub data Handler : Type 0 where
  live : Handler
  ready : List (String × Pinger) → Handler
  metrics : Handler

pub record Server : Type 0 where
  pub addr : String
  pub routes : List (String × Handler)
  pub read_header_seconds : ℕ

-- `NewServer`; `has_registry` says whether a Prometheus registry is given.
unfoldable pub new_server : String → List (String × Pinger) → Bool → Option Server
new_server addr checks has_registry =
    if str_eq addr ""
    then none
    else some (record {
      addr = addr;
      routes =
          (path_livez, live)
          ∷ (path_readyz, ready checks)
          ∷ (if has_registry then (path_metrics, metrics) ∷ [] else []);
      read_header_seconds = 5;
    })

-- `healthfiber.Mount`
unfoldable pub mount : List (String × Pinger) → List (String × Handler)
mount checks = (path_livez, live) ∷ (path_readyz, ready checks) ∷ []

module _ (encode : ReadyResponse → String) where
  -- `core.Evaluate`
  unfoldable pub evaluate : List Finish → String × ℕ
  unfolding run_checks
  evaluate schedule = let (resp, status) = run_checks schedule in (encode resp, status)

  unfoldable pub live_handler : HttpReply
  live_handler = record { status = 200; content_type = "application/json"; body = live_body }

  unfoldable pub ready_handler : List Finish → HttpReply
  unfolding evaluate
  ready_handler schedule =
      let (body, status) = evaluate schedule in
      record { status = status; content_type = "application/json"; body = body }

-- How a server's routes relate to those that `mount` gives a Fiber application.
abbrev pub Mounts : String → String → List (String × Pinger) → Bool → Option Server → Type 0
Mounts addr path checks has_registry none = addr ≡ ""
Mounts addr path checks has_registry (some server) =
    (addr ≢ "")
    × (lookup path server.routes ≡ (
        if str_eq path_metrics path
        then (if has_registry then some metrics else none)
        else lookup path (mount checks)))

lookup-routes :
    (path : String) (checks : List (String × Pinger)) (has_registry : Bool)
    → lookup path (
        (path_livez, live)
        ∷ (path_readyz, ready checks)
        ∷ (if has_registry then (path_metrics, metrics) ∷ [] else []))
      ≡ (if str_eq path_metrics path
          then (if has_registry then some metrics else none)
          else lookup path (mount checks))
unfolding mount lookup
lookup-routes path checks true = ground (
  arith,
  eq_iff path_metrics path,
  eq_iff path_livez path,
  eq_iff path_readyz path,
  eq_iff path_metrics path_livez,
  eq_iff path_metrics path_readyz,
)
lookup-routes path checks false = ground (
  arith,
  eq_iff path_metrics path,
  eq_iff path_livez path,
  eq_iff path_readyz path,
  eq_iff path_metrics path_livez,
  eq_iff path_metrics path_readyz,
)

-- A server is built exactly where an address is given; it answers the two probe paths by the
-- handlers that Fiber's mount gives them, the metrics path only with a registry, and nothing else.
pub new_server-Mounts :
    (addr path : String) (checks : List (String × Pinger)) (has_registry : Bool)
    → Mounts addr path checks has_registry (new_server addr checks has_registry)
unfolding new_server
new_server-Mounts addr path checks has_registry = elim (Bool-cases (str_eq addr "")) [
  | inl empty ↦ rw empty ((eq_iff addr "").0 empty)
  | inr given ↦ rw given (ground (arith, eq_iff addr ""), lookup-routes path checks has_registry)
]
