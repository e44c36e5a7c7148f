-- ===== src/Middleware.antt =====
-- middleware/error_handler.go: the global error handler, the recovery from panics and the
-- catch-all route. A step returns its reply and what it logs.
pub mod Laws
pub mod Served
pub mod Registered
pub mod Jwt
use Prim.Native.String.{◌++◌}
use aeternixth_go_lib.Prelude.{ℕ, String, List, [], ◌∷◌, none, some, ◌==◌, leb, if◌then◌else◌}
use mathlib.Core.List
use aeternixth_go_lib.Errors.{
  Registries, Details, GoError, app, fiber, plain, ErrorInfo, AppError, new_internal_server_error,
  new_not_found,
}
use aeternixth_go_lib.Errors.Code
use aeternixth_go_lib.Response.{status_of, app_info, failure, untyped}
use aeternixth_go_lib.Web.{Request, Reply, Panic, error, text, value, Exit, returned, panicked}

pub data LogLine (Any : Type 0) : Type 0 where
  unexpected : GoError Any → LogLine Any
  server_error : String → String → ℕ → GoError Any → LogLine Any
  panic_recovered : String → String → String → LogLine Any

unfoldable pub get_error_code_from_status : ℕ → String
get_error_code_from_status status =
    if status == 400
    then Code.bad_request
    else if status == 401
    then Code.unauthorized
    else if status == 403
    then Code.forbidden
    else if status == 404
    then Code.not_found
    else if status == 409
    then Code.conflict
    else if status == 500
    then Code.internal_server
    else if status == 503
    then Code.service_unavailable
    else Code.internal_server

module _ {Any : Type 0} (fmt_value : Any → String) (unicode_lower : ℕ → ℕ) (r : Registries) where
  -- The status, the error's information and the first log line of each of the three categories.
  unfoldable pub classify : Request → GoError Any → ℕ × ErrorInfo Any × List (LogLine Any)
  unfolding status_of get_error_code_from_status
  classify req (app e) = (status_of r e, app_info fmt_value unicode_lower r req e, [])
  classify req (fiber status message) = (
    status,
    record {
      code = get_error_code_from_status status;
      message = message;
      field = "";
      details = Details.nil;
    },
    [],
  )
  classify req (plain message) =
      (500, untyped "An unexpected error occurred", unexpected (plain message) ∷ [])

  -- `ErrorHandler`
  unfoldable pub error_handler : Request → GoError Any → Reply Any × List (LogLine Any)
  unfolding classify
  error_handler req err =
      let (status, info, logged) = classify req err in
      (
        failure status info,
        if leb 500 status
            then List.◌++◌ logged (server_error req.method req.path status err ∷ [])
            else logged,
      )

module _ {Any : Type 0} (fmt_value : Any → String) (error_text : GoError Any → String) where
  -- The recovered value as an error's text.
  unfoldable pub panic_text : Panic Any → String
  panic_text (error e) = error_text e
  panic_text (text s) = s
  panic_text (value v) = fmt_value v

  -- `RecoverMiddleware` around a handler that has left; after a recovery the result is nil.
  unfoldable pub recover_middleware : Request → Exit Any → Exit Any × List (LogLine Any)
  unfolding panic_text new_internal_server_error
  recover_middleware req (returned err reply) = (returned err reply, [])
  recover_middleware req (panicked v reply) =
      let e : AppError Any = new_internal_server_error "A critical error occurred" in
      (
        returned none (
            failure e.status_code
              (record { code = e.code; message = e.message; field = ""; details = Details.nil })),
        panic_recovered req.method req.path (panic_text v) ∷ [],
      )

module _ {Any : Type 0} where
  unfoldable pub not_found_handler : Request → Reply Any → Exit Any
  unfolding new_not_found
  not_found_handler req reply =
      returned (some (app (new_not_found ("Route '" ++ req.path ++ "' not found")))) reply
