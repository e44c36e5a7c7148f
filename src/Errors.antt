-- ===== src/Errors.antt =====
-- errors/error.go: AppError, the registry of status codes and the constructors.
-- Go's `interface{}` is the type `Any` of a section; a Go string is a text of code points, and an
-- HTTP status is a natural number.
pub mod Code
pub mod Registry
pub mod Message
pub mod Language
use aeternixth_go_lib.Prelude.{
  ℕ, Bool, String, List, Option, none, some, lookup, insert_all, str_eq, if◌then◌else◌,
}
use Prim.Native.String.{◌++◌}

-- What `Details interface{}` holds: nil, a `map[string]interface{}`, or any other value.
pub data Details (Any : Type 0) : Type 0 where
  nil : Details Any
  fields : List (String × Any) → Details Any
  other : Any → Details Any

pub record AppError (Any : Type 0) : Type 0 where
  pub code : String
  pub message : String
  pub field : String
  pub details : Details Any
  pub status_code : ℕ

-- The dynamic types of an `error` that the code tells apart: `*AppError`, `*fiber.Error` with its
-- code and message, and every other one with what its `Error` method returns.
pub data GoError (Any : Type 0) : Type 0 where
  app : AppError Any → GoError Any
  fiber : ℕ → String → GoError Any
  plain : String → GoError Any

pub record ErrorInfo (Any : Type 0) : Type 0 where
  pub code : String
  pub message : String
  pub field : String
  pub details : Details Any

pub record ErrorResponse (Any : Type 0) : Type 0 where
  pub success : Bool
  pub error : Option (ErrorInfo Any)
  pub payload : Option Any

-- `registry` of error.go and `translations` of translation.go.
pub record Registries : Type 0 where
  pub registry : List (String × ℕ)
  pub translations : List (String × List (String × String))

unfoldable pub register_codes : List (String × ℕ) → Registries → Registries
register_codes codes r = record r { registry = insert_all codes r.registry }

unfoldable pub get_status_code : Registries → String → ℕ
get_status_code r code = elim (lookup code r.registry) [ some status ↦ status | none ↦ 500 ]

module _ {Any : Type 0} where
  -- `Error`
  unfoldable pub error_text : AppError Any → String
  error_text e =
      if str_eq e.message "" then "[" ++ e.code ++ "]" else "[" ++ e.code ++ "] " ++ e.message

  unfoldable pub new : String → AppError Any
  new code = record { code = code; message = ""; field = ""; details = nil; status_code = 0 }

  unfoldable pub new_app_error : String → String → ℕ → AppError Any
  new_app_error code message status = record {
    code = code;
    message = message;
    field = "";
    details = nil;
    status_code = status;
  }

  unfoldable pub with_details : Details Any → AppError Any → AppError Any
  with_details d e = record {
    code = e.code;
    message = e.message;
    field = e.field;
    details = d;
    status_code = e.status_code;
  }

  unfoldable pub with_field : String → AppError Any → AppError Any
  with_field f e = record {
    code = e.code;
    message = e.message;
    field = f;
    details = e.details;
    status_code = e.status_code;
  }

  unfoldable pub new_bad_request : String → AppError Any
  unfolding new_app_error
  new_bad_request message = new_app_error Code.bad_request message 400

  unfoldable pub new_unauthorized : String → AppError Any
  unfolding new_app_error
  new_unauthorized message = new_app_error Code.unauthorized message 401

  unfoldable pub new_forbidden : String → AppError Any
  unfolding new_app_error
  new_forbidden message = new_app_error Code.forbidden message 403

  unfoldable pub new_not_found : String → AppError Any
  unfolding new_app_error
  new_not_found message = new_app_error Code.not_found message 404

  unfoldable pub new_conflict : String → AppError Any
  unfolding new_app_error
  new_conflict message = new_app_error Code.conflict message 409

  unfoldable pub new_internal_server_error : String → AppError Any
  unfolding new_app_error
  new_internal_server_error message = new_app_error Code.internal_server message 500

  unfoldable pub new_validation_error : Details Any → AppError Any
  unfolding new_app_error with_details
  new_validation_error d =
      with_details d
        (new_app_error Code.validation_failed "Validation failed for the provided data" 400)

  unfoldable pub to_http_status_code : GoError Any → ℕ
  to_http_status_code (app e) = e.status_code
  to_http_status_code _ = 500
