-- ===== src/Tests/Tokens.antt =====
-- A token library over which the laws of the service and of the middlewares can be run.
use aeternixth_go_lib.Prelude.{
  String, Char, code, true, false, Option, none, some, ◌≡◌, refl, ◌⊎◌, inr, arith, str_eq, eq_iff,
  ◌==◌, ap, sym, ◌∙◌, if◌then◌else◌,
}
use aeternixth_go_lib.Jwt.{
  Library, Parsed, failed, Method, hmac, other_method, invalid_token, generate_token,
  validate_token,
}
use aeternixth_go_lib.Jwt.Laws.{
  Validity, current, expired, too_early, parsed_at, answer_at, IsLibrary, validate_token_method,
  validate_token-generate_token,
}
use aeternixth_go_lib.Middleware.Jwt.{Claims, new_claims, unset, Next}
use aeternixth_go_lib.Middleware.Jwt.Laws.{Admitted, Anonymous, authentication}
use aeternixth_go_lib.Web.{Request, Reply, empty, returned}

-- The first character of a token tells its method and its claims; the rest is the key.
abbrev letter : Char → Option Validity
letter c =
    if code c == b'c'
    then some current
    else if code c == b'e'
    then some expired
    else if code c == b't'
    then some too_early
    else none

abbrev checked : Option Validity → Option String → String → Parsed Validity
checked none k s = failed false
checked (some v) none s = failed false
checked (some v) (some k) s = if str_eq k s then parsed_at v v else failed false

abbrev parse : String → (Method → Option String) → Parsed Validity
parse String.[] key = failed false
parse (String.◌∷◌ c s) key = checked (letter c) (key hmac) s

abbrev sign : Validity → String → Option String
sign current s = some (String.◌∷◌ "c" s)
sign expired s = some (String.◌∷◌ "e" s)
sign too_early s = some (String.◌∷◌ "t" s)

abbrev method_of : String → Option Method
method_of String.[] = none
method_of (String.◌∷◌ c s) = elim (letter c) [ none ↦ some other_method | some v ↦ some hmac ]

abbrev library : Library Validity
library = record { sign = sign; parse = parse }

checked_hmac :
    (v : Option Validity) (m : Method) (key : Method → Option String) (s : String)
    → (elim v [ none ↦ some other_method | some w ↦ some hmac ]) ≡ some m
    → key m ≡ none
    → checked v (key hmac) s ≡ failed false
checked_hmac none m key s e k = refl
checked_hmac (some v) hmac key s e k = rw k
checked_hmac (some v) other_method key s e k = cc

abbrev given : Option String → String
given none = ""
given (some text) = text

checked_own :
    (v : Validity) (key : Method → Option String) (s : String)
    → key hmac ≡ some s
    → checked (some v) (key hmac) s ≡ parsed_at v v
checked_own v key s k = rw (k, (eq_iff s s).1 refl)

library-IsLibrary : IsLibrary library method_of (λ v. v)
library-IsLibrary = record {
  unverifiable = unverifiable_lem;
  malformed = malformed_lem;
  signed = signed_lem;
}
  where
    unverifiable_lem :
        (text : String) (m : Method) (key : Method → Option String)
        → method_of text ≡ some m
        → key m ≡ none
        → parse text key ≡ failed false
    unverifiable_lem String.[] m key e k = refl
    unverifiable_lem (String.◌∷◌ c s) m key e k = checked_hmac (letter c) m key s e k

    malformed_lem :
        (text : String) (key : Method → Option String)
        → method_of text ≡ none
        → parse text key ≡ failed false
    malformed_lem String.[] key e = refl
    malformed_lem (String.◌∷◌ c s) key e = ground arith

    signed_lem :
        (v : Validity) (secret text : String) (key : Method → Option String)
        → sign v secret ≡ some text
        → key hmac ≡ some secret
        → parse text key ≡ parsed_at v v
    signed_lem current s text key e k =
        ap (λ x. parse (given x) key) (sym e) ∙ checked_own current key s k
    signed_lem expired s text key e k =
        ap (λ x. parse (given x) key) (sym e) ∙ checked_own expired key s k
    signed_lem too_early s text key e k =
        ap (λ x. parse (given x) key) (sym e) ∙ checked_own too_early key s k

validate_token_method_example : validate_token library "key" "nkey" ≡ inr invalid_token
validate_token_method_example =
    validate_token_method library method_of (λ v. v) "key" "nkey" library-IsLibrary (λ e. cc)

validate_token-generate_token_example :
    validate_token library "key" "ekey" ≡ answer_at expired expired
unfolding generate_token
validate_token-generate_token_example =
    validate_token-generate_token library method_of (λ v. v) "key" expired "ekey" library-IsLibrary
      refl

abbrev claims : Claims
claims = new_claims 5 "7" "ann" "a@b.c" "admin" 60000000000

-- Accepts the one text that is the key.
abbrev one_token : Library Claims
one_token = record {
  sign = λ c secret. some secret;
  parse = λ text key. elim (key hmac) [
    | none ↦ failed false
    | some k ↦ if str_eq k text then Parsed.token (some claims) true else failed false
  ];
}

abbrev request : Request
request = record { method = "GET"; path = "/me"; header = λ name. "Bearer key" }

abbrev handler : Next String String
handler local reply = returned none reply

abbrev blank : Reply String
blank = record { status = 200; body = empty }

authentication_example :
    Admitted one_token "key" some request handler unset blank
    ⊎ Anonymous one_token "key" some request handler unset blank
authentication_example = authentication one_token "key" some request handler unset blank
