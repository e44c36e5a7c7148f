-- ===== src/Middleware/Registered.antt =====
-- What a client sees of an error whose code the application has registered: register_codes
-- (errors/error.go), register_translations (errors/translation.go), the language of the request
-- and the error handler together.
use aeternixth_go_lib.Prelude.{
  ℕ, String, List, [], Option, none, some, ◌≡◌, refl, ap, ◌∙◌, str_eq, if◌then◌else◌, lookup,
  or_else, Distinct, lookup-insert_all,
}
use aeternixth_go_lib.Errors.{Registries, Details, app, new, register_codes, get_status_code}
use aeternixth_go_lib.Errors.Registry.{get_status_code-register_codes}
use aeternixth_go_lib.Errors.Message.{
  register_translations, resolve_message, translated, first_given, fill_details,
}
use aeternixth_go_lib.Errors.Language.{resolve_language, default_language}
use aeternixth_go_lib.Response.{failure}
use aeternixth_go_lib.Web.{Request}
use aeternixth_go_lib.Middleware.{error_handler}

-- The status of a code by a registration and the earlier ones.
abbrev pub status_by : Option ℕ → ℕ
status_by (some status) = status
status_by none = 500

-- The templates of a code, where it has any.
abbrev pub templates : Option (List (String × String)) → List (String × String)
templates (some langs) = langs
templates none = []

-- A template if there is one with a text, and else the code.
abbrev pub message_by : String → Option String → String
message_by code (some template) = if str_eq template "" then code else template
message_by code none = code

-- The text that `resolve_message` finds in the templates of a code.
abbrev template : Option (List (String × String)) → String → String
template found lang = elim found [
  | none ↦ ""
  | some langs ↦ elim (lookup lang langs) [
    | some message ↦ message
    | none ↦ elim (lookup default_language langs) [ some fallback ↦ fallback | none ↦ "" ]
  ]
]

chosen_text :
    (given fallback : Option String) (code : String)
    → first_given
        (elim given [
          | some message ↦ message
          | none ↦ elim fallback [ some message ↦ message | none ↦ "" ]
        ])
        ""
        code
      ≡ message_by code (or_else given fallback)
unfolding first_given
chosen_text (some message) fallback code = refl
chosen_text none (some message) code = refl
chosen_text none none code = refl

chosen :
    (found : Option (List (String × String))) (code lang : String)
    → first_given (template found lang) "" code
      ≡ message_by code (or_else (lookup lang (templates found)) (lookup "en" (templates found)))
unfolding first_given lookup
chosen none code lang = refl
chosen (some langs) code lang = chosen_text (lookup lang langs) (lookup "en" langs) code

module _ {Any : Type 0} (fmt_value : Any → String) (unicode_lower : ℕ → ℕ) where
  registered_message :
      (r : Registries) (texts : List (String × List (String × String))) (code lang : String)
      → Distinct texts
      → resolve_message fmt_value (register_translations texts r) (new {Any = Any} code) lang ≡ (
          let langs = templates (or_else (lookup code texts) (lookup code r.translations)) in
          message_by code (or_else (lookup lang langs) (lookup "en" langs)))
  unfolding resolve_message register_translations new translated fill_details
  registered_message r texts code lang d =
      ap (λ found. first_given (template found lang) "" code)
        (lookup-insert_all texts r.translations code d)
      ∙ chosen (or_else (lookup code texts) (lookup code r.translations)) code lang

  -- With a registration of statuses and one of translations that name no code twice, the reply to
  -- an error that New makes has its code; the status is that of the registration, else of the
  -- earlier ones, else 500; the message is the template of the code in the request's language,
  -- else in English, from the registration if it names the code and else from the earlier ones,
  -- and where that is missing or empty it is the code.
  pub error_handler-register :
      (r : Registries) (statuses : List (String × ℕ))
      (texts : List (String × List (String × String))) (req : Request) (code : String)
      → Distinct statuses
      → Distinct texts
      → let registered = register_translations texts (register_codes statuses r) in
        let lang = resolve_language unicode_lower (req.header "Accept-Language") in
        let langs = templates (or_else (lookup code texts) (lookup code r.translations)) in
        (error_handler fmt_value unicode_lower registered req (app (new code))).0
        ≡ failure (status_by (or_else (lookup code statuses) (lookup code r.registry))) (record {
          code = code;
          message = message_by code (or_else (lookup lang langs) (lookup "en" langs));
          field = "";
          details = Details.nil;
        })
  unfolding error_handler register_translations register_codes new get_status_code
  error_handler-register r statuses texts req code d e =
      let lang = resolve_language unicode_lower (req.header "Accept-Language") in
      let status = get_status_code-register_codes r statuses code d in
      let message = registered_message (register_codes statuses r) texts code lang e in
      λ i.
        failure (status i)
          (record { code = code; message = message i; field = ""; details = Details.nil })
