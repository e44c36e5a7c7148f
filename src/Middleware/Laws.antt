-- ===== src/Middleware/Laws.antt =====
-- What a client sees of an error, by way of the error handler and of `response.Error`.
use aeternixth_go_lib.Prelude.{ℕ, suc, String, List, [], ◌∷◌, ◌≡◌, refl, leb, if◌then◌else◌, arith}
use aeternixth_go_lib.Errors.{
  Registries, AppError, GoError, app, fiber, plain, new_bad_request, new_unauthorized,
  new_forbidden, new_not_found, new_conflict, new_internal_server_error,
}
use aeternixth_go_lib.Response
use aeternixth_go_lib.Web
use aeternixth_go_lib.Web.{Request, Panic, panicked}
use aeternixth_go_lib.Middleware.{
  LogLine, unexpected, server_error, panic_recovered, error_handler, get_error_code_from_status,
  recover_middleware, panic_text,
}

-- How many log lines report a server error.
abbrev pub server_errors : {Any : Type 0} → List (LogLine Any) → ℕ
server_errors [] = 0
server_errors (server_error _ _ _ _ ∷ lines) = suc (server_errors lines)
server_errors (unexpected _ ∷ lines) = server_errors lines
server_errors (panic_recovered _ _ _ ∷ lines) = server_errors lines

module _ {Any : Type 0} (fmt_value : Any → String) (unicode_lower : ℕ → ℕ) (r : Registries) where
  -- For every AppError the error handler and response.Error send the same reply.
  pub error_handler-eq-error :
      (req : Request) (e : AppError Any)
      → (error_handler fmt_value unicode_lower r req (app e)).0
        ≡ Response.error fmt_value unicode_lower r req (app e)
  unfolding error_handler Response.error
  error_handler-eq-error req e = refl

  -- For errors that are neither an AppError nor a Fiber error the reply is the same whatever the
  -- error's text, and the log holds the error itself, as unexpected and as a server error.
  pub error_handler_opaque :
      (req : Request) (s t : String)
      → ((error_handler fmt_value unicode_lower r req (plain s)).0
          ≡ (error_handler fmt_value unicode_lower r req (plain t)).0)
        × ((error_handler fmt_value unicode_lower r req (plain s)).1
            ≡ unexpected (plain s) ∷ server_error req.method req.path 500 (plain s) ∷ [])
  unfolding error_handler
  error_handler_opaque req s t = (refl, refl)

  -- An error is logged as a server error once if the reply's status is 500 or more, and else
  -- never.
  pub error_handler_logs :
      (req : Request) (err : GoError Any)
      → server_errors (error_handler fmt_value unicode_lower r req err).1
        ≡ (if leb 500 (error_handler fmt_value unicode_lower r req err).0.status then 1 else 0)
  unfolding error_handler
  error_handler_logs req (app e) = ground arith
  error_handler_logs req (fiber status message) = ground arith
  error_handler_logs req (plain message) = ground arith

module _ {Any : Type 0} (fmt_value : Any → String) (error_text : GoError Any → String) where
  -- After a panic of a handler the recovery's outcome is the same whatever was thrown and whatever
  -- reply had been built, and the text of what was thrown is logged.
  pub recover_middleware_lem :
      (req : Request) (v w : Panic Any) (before after : Web.Reply Any)
      → ((recover_middleware fmt_value error_text req (panicked v before)).0
          ≡ (recover_middleware fmt_value error_text req (panicked w after)).0)
        × ((recover_middleware fmt_value error_text req (panicked v before)).1
            ≡ panic_recovered req.method req.path (panic_text fmt_value error_text v) ∷ [])
  unfolding recover_middleware
  recover_middleware_lem req v w before after = (refl, refl)

-- The constructors that take a message agree with the middleware's table: the code that they set
-- is the one that the table gives for the status that they set.
pub get_error_code_from_status-constructors :
    (Any : Type 0) (m : String)
    → let agrees = λ (e : AppError Any). get_error_code_from_status e.status_code ≡ e.code in
      agrees (new_bad_request m)
      × agrees (new_unauthorized m)
      × agrees (new_forbidden m)
      × agrees (new_not_found m)
      × agrees (new_conflict m)
      × agrees (new_internal_server_error m)
unfolding get_error_code_from_status new_bad_request new_unauthorized new_forbidden new_not_found
    new_conflict new_internal_server_error
get_error_code_from_status-constructors Any m = (refl, refl, refl, refl, refl, refl)
