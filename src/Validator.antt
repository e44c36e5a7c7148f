-- ===== src/Validator.antt =====
-- validator/validator.go: the texts of its errors. The rules of go-playground/validator are a
-- of go-playground/validator and the parsers of Fiber are parameters.
use Prim.Native.String.{◌++◌}
use aeternixth_go_lib.Prelude.{String, List, [], ◌∷◌, str_eq, if◌then◌else◌, map}

pub record FieldError : Type 0 where
  pub field : String
  pub tag : String
  pub param : String

-- What `Struct` answers: the fields that break a rule, or another error.
pub data ValidatorError : Type 0 where
  validation_errors : List FieldError → ValidatorError
  other_error : String → ValidatorError

-- `formatFieldError`
unfoldable pub format_field_error : FieldError → String
format_field_error e =
    if str_eq e.tag "required"
    then e.field ++ " is required"
    else if str_eq e.tag "email"
    then e.field ++ " must be a valid email address"
    else if str_eq e.tag "min"
    then e.field ++ (" must be at least " ++ (e.param ++ " characters"))
    else if str_eq e.tag "max"
    then e.field ++ (" must not exceed " ++ (e.param ++ " characters"))
    else e.field ++ " is invalid"

-- `strings.Join(messages, "; ")`
unfoldable pub join_messages : List String → String
join_messages [] = ""
join_messages (m ∷ []) = m
join_messages (m ∷ n ∷ messages) = m ++ ("; " ++ join_messages (n ∷ messages))

-- `FormatValidationError`
unfoldable pub format_validation_error : ValidatorError → String
unfolding join_messages format_field_error
format_validation_error (validation_errors errors) = join_messages (map format_field_error errors)
format_validation_error (other_error text) = text
