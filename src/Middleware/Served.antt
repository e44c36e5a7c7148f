-- ===== src/Middleware/Served.antt =====
-- A handler behind the two middlewares of middleware/error_handler.go, put together as their
-- comments and README.md say: RecoverMiddleware around the handler, and ErrorHandler as the
-- application's handler of the errors that come out.
use aeternixth_go_lib.Prelude.{
  ℕ, String, List, [], ◌∷◌, ◌++◌, none, some, ◌≡◌, refl, leb, if◌then◌else◌, arith,
}
use aeternixth_go_lib.Errors.{Registries, GoError, app, fiber, plain}
use aeternixth_go_lib.Web.{Request, Reply, Panic, Exit, returned, panicked}
use aeternixth_go_lib.Middleware.{
  LogLine, unexpected, server_error, panic_recovered, error_handler, recover_middleware, panic_text,
}

-- The line that an error of no known type adds to the log.
abbrev pub notes : {Any : Type 0} → Exit Any → List (LogLine Any)
notes (returned (some (plain message)) reply) = unexpected (plain message) ∷ []
notes _ = []

-- Exits that a client must not tell apart: two panics, or two errors of no known type.
pub data Alike {Any : Type 0} : Exit Any → Exit Any → Type 0 where
  panics : (v w : Panic Any) (r s : Reply Any) → Alike (panicked v r) (panicked w s)
  unknown :
      (m n : String) (r s : Reply Any)
      → Alike (returned (some (plain m)) r) (returned (some (plain n)) s)

-- A handler that fails: it panics, or it returns an error.
pub data Failed {Any : Type 0} : Exit Any → Type 0 where
  threw : (v : Panic Any) (r : Reply Any) → Failed (panicked v r)
  erred : (e : GoError Any) (r : Reply Any) → Failed (returned (some e) r)

module _ {Any : Type 0} (fmt_value : Any → String) (unicode_lower : ℕ → ℕ)
    (error_text : GoError Any → String) (r : Registries) (req : Request) where
  -- What goes out for an exit that the recovery has seen, behind what it has logged.
  abbrev handled : Exit Any → List (LogLine Any) → Reply Any × List (LogLine Any)
  handled (returned none reply) logged = (reply, logged)
  handled (returned (some e) reply) logged =
      let (answer, lines) = error_handler fmt_value unicode_lower r req e in
      (answer, logged ++ lines)
  handled (panicked v reply) logged = (reply, logged)

  abbrev pub served : Exit Any → Reply Any × List (LogLine Any)
  served exit =
      let (out, logged) = recover_middleware fmt_value error_text req exit in handled out logged

  -- The report of a failure that was answered with the status.
  abbrev pub report : ℕ → {exit : Exit Any} → Failed exit → LogLine Any
  report status (threw v reply) =
      panic_recovered req.method req.path (panic_text fmt_value error_text v)
  report status (erred e reply) = server_error req.method req.path status e

  alike : (x y : Exit Any) → Alike x y → (served x).0 ≡ (served y).0
  unfolding recover_middleware error_handler
  alike x y (panics v w a b) = refl
  alike x y (unknown m n a b) = refl

  reported :
      (x : Exit Any) (failed : Failed x)
      → let status = (served x).0.status in
        (served x).1 ≡ notes x ++ (if leb 500 status then report status failed ∷ [] else [])
  unfolding recover_middleware error_handler
  reported x (threw v reply) = refl
  reported x (erred (app e) reply) = ground arith
  reported x (erred (fiber status message) reply) = ground arith
  reported x (erred (plain message) reply) = refl

  -- Behind RecoverMiddleware and with ErrorHandler for the errors that come out: a client gets one
  -- reply for all panics and one for all errors that are neither an AppError nor a Fiber error,
  -- whatever they say; and where a handler panics or returns an error, the log is a note of the
  -- error if it is of neither type, and after it one report, with the panic's text or the error,
  -- if the reply's status is 500 or more, and nothing else.
  pub served_lem :
      ((x y : Exit Any) → Alike x y → (served x).0 ≡ (served y).0)
      × ((x : Exit Any) (failed : Failed x)
          → let status = (served x).0.status in
            (served x).1 ≡ notes x ++ (if leb 500 status then report status failed ∷ [] else []))
  served_lem = (alike, reported)
