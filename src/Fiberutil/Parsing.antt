-- ===== src/Fiberutil/Parsing.antt =====
-- fiber/request.go and fiber/query_string.go. Fiber's parsers and the validator's rules are
-- parameters; `anything` is a text as the details of an error.
use aeternixth_go_lib.Prelude.{ℕ, String, [], Option, none, some, ◌≡◌, refl, ◌⊎◌, inl, inr}
use aeternixth_go_lib.Errors.{
  AppError, app, Details, Registries, new_bad_request, new_validation_error,
}
use aeternixth_go_lib.Validator.{ValidatorError, format_validation_error}
use aeternixth_go_lib.Web.{Request}
use aeternixth_go_lib.Middleware.{error_handler}

module _ {Any T : Type 0} (anything : String → Any) (zero_value : T)
    (validate : T → Option ValidatorError) where
  abbrev checked : T → Option ValidatorError → T × Option (AppError Any)
  checked t none = (t, none)
  checked t (some err) =
      (t, some (new_validation_error (Details.other (anything (format_validation_error err)))))

  abbrev parsed : String → T ⊎ String → T × Option (AppError Any)
  parsed message (inr err) = (zero_value, some (new_bad_request message))
  parsed message (inl t) = checked t (validate t)

  -- `GetRequestBody`, on what `BodyParser` answers
  unfoldable pub get_request_body : T ⊎ String → T × Option (AppError Any)
  unfolding new_bad_request new_validation_error format_validation_error
  get_request_body answer = parsed "Invalid request body" answer

  -- `GetQueryParams`, on what `QueryParser` answers
  unfoldable pub get_query_params : T ⊎ String → T × Option (AppError Any)
  unfolding new_bad_request new_validation_error format_validation_error
  get_query_params answer = parsed "Invalid query parameters" answer

  module _ (fmt_value : Any → String) (unicode_lower : ℕ → ℕ) (r : Registries) (req : Request) where
    -- Without an error the value is the parser's and valid; an error ends in a reply of status 400
    -- of which nothing is logged.
    abbrev pub Answered : T ⊎ String → T × Option (AppError Any) → Type 0
    Answered answer (t, none) = (answer ≡ inl t) × (validate t ≡ none)
    Answered answer (t, some e) =
        ((error_handler fmt_value unicode_lower r req (app e)).0.status ≡ 400)
        × ((error_handler fmt_value unicode_lower r req (app e)).1 ≡ [])

    checked-Answered :
        (t : T) (verdict : Option ValidatorError)
        → validate t ≡ verdict
        → Answered (inl t) (checked t verdict)
    unfolding error_handler new_validation_error
    checked-Answered t none e = (refl, e)
    checked-Answered t (some err) e = (refl, refl)

    parsed-Answered :
        (message : String) (answer : T ⊎ String) → Answered answer (parsed message answer)
    unfolding error_handler new_bad_request
    parsed-Answered message (inr err) = (refl, refl)
    parsed-Answered message (inl t) = checked-Answered t (validate t) refl

    -- Whatever the parser and the validator say of a body or a query: a handler that gets no error
    -- has the parsed value, which is valid; one that returns the error makes ErrorHandler reply
    -- with status 400 and log nothing.
    pub requests_lem :
        (answer : T ⊎ String)
        → Answered answer (get_request_body answer) × Answered answer (get_query_params answer)
    unfolding get_request_body get_query_params
    requests_lem answer = (
      parsed-Answered "Invalid request body" answer,
      parsed-Answered "Invalid query parameters" answer,
    )
