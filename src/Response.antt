-- ===== src/Response.antt =====
-- response/response.go: the response helpers. Each sets the reply and returns nil.

use aeternixth_go_lib.Prelude.{ℕ, String, none, some, true, false, ◌==◌, if◌then◌else◌}
use aeternixth_go_lib.Errors.{
  Registries, Details, AppError, GoError, app, fiber, plain, ErrorInfo, get_status_code, error_text,
  new_bad_request, new_unauthorized, new_forbidden, new_not_found, new_conflict,
  new_internal_server_error, new_validation_error,
}
use aeternixth_go_lib.Errors.Code
use aeternixth_go_lib.Errors.Language.{resolve_language}
use aeternixth_go_lib.Errors.Message.{resolve_message}
use aeternixth_go_lib.Web.{Request, Reply, succeeded, failed, empty}

module _ {Any : Type 0} where
  -- The status of the reply stays as the context has it, 200 on a fresh one.
  unfoldable pub success : ℕ → Any → Reply Any
  success current payload = record {
    status = current;
    body = succeeded (record { success = true; payload = payload });
  }

  unfoldable pub success_with_status : ℕ → Any → Reply Any
  success_with_status status payload = record {
    status = status;
    body = succeeded (record { success = true; payload = payload });
  }

  unfoldable pub created : Any → Reply Any
  unfolding success_with_status
  created = success_with_status 201

  unfoldable pub no_content : Reply Any
  no_content = record { status = 204; body = empty }

  abbrev pub failure : ℕ → ErrorInfo Any → Reply Any
  failure status info = record {
    status = status;
    body = failed (record { success = false; error = some info; payload = none });
  }

  -- What `err.Error()` returns; a `fiber.Error` gives its message.
  unfoldable pub go_error_text : GoError Any → String
  unfolding error_text
  go_error_text (app e) = error_text e
  go_error_text (fiber code message) = message
  go_error_text (plain message) = message

  -- The status set on the error, or else that of its code in the registry.
  unfoldable pub status_of : Registries → AppError Any → ℕ
  unfolding get_status_code
  status_of r e = if e.status_code == 0 then get_status_code r e.code else e.status_code

  abbrev pub untyped : String → ErrorInfo Any
  untyped message = record {
    code = Code.internal_server;
    message = message;
    field = "";
    details = Details.nil;
  }

module _ {Any : Type 0} (fmt_value : Any → String) (unicode_lower : ℕ → ℕ) (r : Registries) where
  abbrev pub app_info : Request → AppError Any → ErrorInfo Any
  app_info req e = record {
    code = e.code;
    message =
        resolve_message fmt_value r e
          (resolve_language unicode_lower (req.header "Accept-Language"));
    field = e.field;
    details = e.details;
  }

  -- `Error`
  unfoldable pub error : Request → GoError Any → Reply Any
  unfolding status_of go_error_text
  error req (app e) = failure (status_of r e) (app_info req e)
  error req (fiber code message) =
      failure 500 (untyped (go_error_text {Any = Any} (fiber code message)))
  error req (plain message) = failure 500 (untyped (go_error_text {Any = Any} (plain message)))

  unfoldable pub bad_request : Request → String → Reply Any
  unfolding error new_bad_request
  bad_request req message = error req (app (new_bad_request message))

  unfoldable pub unauthorized : Request → String → Reply Any
  unfolding error new_unauthorized
  unauthorized req message = error req (app (new_unauthorized message))

  unfoldable pub forbidden : Request → String → Reply Any
  unfolding error new_forbidden
  forbidden req message = error req (app (new_forbidden message))

  unfoldable pub not_found : Request → String → Reply Any
  unfolding error new_not_found
  not_found req message = error req (app (new_not_found message))

  unfoldable pub conflict : Request → String → Reply Any
  unfolding error new_conflict
  conflict req message = error req (app (new_conflict message))

  unfoldable pub internal_server_error : Request → String → Reply Any
  unfolding error new_internal_server_error
  internal_server_error req message = error req (app (new_internal_server_error message))

  unfoldable pub validation_error : Request → Details Any → Reply Any
  unfolding error new_validation_error
  validation_error req details = error req (app (new_validation_error details))
