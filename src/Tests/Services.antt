-- ===== src/Tests/Services.antt =====
-- Errors, middlewares and tokens at concrete inputs.
use aeternixth_go_lib.Prelude.{
  ℕ, ◌++◌, lookup, or_else, String, List, [], ◌∷◌, ◌≡◌, refl, leb, str_eq, if◌then◌else◌,
}
use aeternixth_go_lib.Errors.{Registries, GoError, plain, nil, app, new, register_codes}
use aeternixth_go_lib.Middleware.{panic_recovered, recover_middleware, error_handler}
use aeternixth_go_lib.Middleware.Registered.{
  status_by, templates, message_by, error_handler-register,
}
use aeternixth_go_lib.Errors.Message.{register_translations}
use aeternixth_go_lib.Errors.Language.{resolve_language}
use aeternixth_go_lib.Response.{failure}
use aeternixth_go_lib.Middleware.Served.{Alike, Failed, notes, served, report, served_lem}
use aeternixth_go_lib.Web.{Request, Reply, Exit, empty, panicked, text}

abbrev registries : Registries
registries = record {
  registry = ("ORDER_LOCKED", 423) ∷ [];
  translations = ("ORDER_LOCKED", ("en", "locked") ∷ []) ∷ [];
}

abbrev request : String → Request
request auth = record {
  method = "GET";
  path = "/orders";
  header = λ name. if str_eq name "Authorization" then auth else "";
}

abbrev lower : ℕ → ℕ
lower c = c

abbrev show : String → String
show s = s

abbrev text_of : GoError String → String
text_of (plain s) = s
text_of _ = "error"

abbrev blank : Reply String
blank = record { status = 200; body = empty }

served_lem_example :
    let answer = served show lower text_of registries (request "") in
    ((x y : Exit String) → Alike x y → (answer x).0 ≡ (answer y).0)
    × ((x : Exit String) (failed : Failed x)
        → let status = (answer x).0.status in
          (answer x).1
          ≡ notes x
            ++ (if leb 500 status
                then report show lower text_of registries (request "") status failed ∷ []
                else []))
served_lem_example = served_lem show lower text_of registries (request "")

-- A panic with a text is reported with it.
panicked_report :
    (served show lower text_of registries (request "") (panicked (text "boom") blank)).1
    ≡ panic_recovered "GET" "/orders" "boom" ∷ []
unfolding recover_middleware
panicked_report = refl

abbrev statuses : List (String × ℕ)
statuses = ("ORDER_GONE", 410) ∷ ("ORDER_LOCKED", 409) ∷ []

abbrev texts : List (String × List (String × String))
texts = ("ORDER_GONE", ("en", "gone") ∷ []) ∷ []

error_handler-register_example :
    let registered = register_translations texts (register_codes statuses registries) in
    let lang = resolve_language lower "" in
    let code : String = "ORDER_LOCKED" in
    let langs = templates (or_else (lookup code texts) (lookup code registries.translations)) in
    (error_handler show lower registered (request "") (app (new code))).0
    ≡ failure
        (status_by (or_else (lookup code statuses) (lookup code registries.registry)))
        (record {
          code = code;
          message = message_by code (or_else (lookup lang langs) (lookup "en" langs));
          field = "";
          details = nil;
        })
unfolding lookup
error_handler-register_example =
    error_handler-register show lower registries statuses texts (request "") "ORDER_LOCKED"
      (refl, (refl, tt)) (refl, tt)
