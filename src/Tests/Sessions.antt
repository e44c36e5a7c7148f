-- ===== src/Tests/Sessions.antt =====
-- A login and a request in its session, over a token library that signs the claims of one login.
use aeternixth_go_lib.Prelude.{
  ℕ, ◌+◌, ◌*◌, ◌/◌, ◌==◌, Bool, true, false, ◌&&◌, leb, String, Option, none, some, ◌≡◌, refl,
  arith, str_eq, eq_iff, ap, sym, if◌then◌else◌,
}
use aeternixth_go_lib.Jwt.{Library, failed, Method, hmac, other_method, generate_token}
use aeternixth_go_lib.Jwt.Laws.{IsLibrary, parsed_at}
use aeternixth_go_lib.Middleware.Jwt.{Claims, new_claims, unset, user, Next, jwt_middleware, refuse}
use aeternixth_go_lib.Middleware.Jwt.Session.{valid_at, session_lem}
use aeternixth_go_lib.Web.{Request, Reply, empty, returned}

abbrev ann : Claims
ann = new_claims 5 "7" "ann" "a@b.c" "admin" 60000000000

abbrev is_ann : Claims → Bool
is_ann c =
    str_eq c.user_id "7"
    && (str_eq c.username "ann"
        && (str_eq c.email "a@b.c"
            && (str_eq c.role "admin"
                && (c.registered.expires_at == 60
                    && (c.registered.issued_at == 0 && c.registered.not_before == 0)))))

is_ann_lem : (c : Claims) → is_ann c ≡ true → c ≡ ann
unfolding new_claims
is_ann_lem c e = ground (
  arith,
  eq_iff c.user_id "7",
  eq_iff c.username "ann",
  eq_iff c.email "a@b.c",
  eq_iff c.role "admin",
)

abbrev library : ℕ → Library Claims
library now = record {
  sign = λ c secret. if is_ann c then some secret else none;
  parse = λ text key. elim (key hmac) [
    | none ↦ failed false
    | some k ↦ if str_eq k text then parsed_at (valid_at now ann) ann else failed false
  ];
}

abbrev method_of : String → Option Method
method_of text = some hmac

signed_lem :
    (now : ℕ) (c : Claims) (secret text : String) (key : Method → Option String)
    → (if is_ann c then some secret else none) ≡ some text
    → key hmac ≡ some secret
    → (library now).parse text key ≡ parsed_at (valid_at now c) c
signed_lem now c secret text key e k = go (is_ann c) refl e
  where
    go :
        (b : Bool)
        → is_ann c ≡ b
        → (if b then some secret else none) ≡ some text
        → (library now).parse text key ≡ parsed_at (valid_at now c) c
    go false a e = cc
    go true a e =
        let same : secret ≡ text = cc in
        rw (k, (eq_iff secret text).1 same)
          (ap (λ c. parsed_at (valid_at now c) c) (sym (is_ann_lem c a)))

library-IsLibrary : (now : ℕ) → IsLibrary (library now) method_of (valid_at now)
library-IsLibrary now = record {
  unverifiable = λ text m key e k. unverifiable_lem text m key e k;
  malformed = λ text key e. cc;
  signed = signed_lem now;
}
  where
    unverifiable_lem :
        (text : String) (m : Method) (key : Method → Option String)
        → method_of text ≡ some m
        → key m ≡ none
        → (library now).parse text key ≡ failed false
    unverifiable_lem text hmac key e k = rw k
    unverifiable_lem text other_method key e k = cc

abbrev request : Request
request = record { method = "GET"; path = "/me"; header = λ name. "Bearer key" }

abbrev handler : Next String String
handler local reply = returned none reply

abbrev blank : Reply String
blank = record { status = 200; body = empty }

signed_ann : generate_token (library 30000000000) "key" ann ≡ some "key"
unfolding generate_token new_claims
signed_ann = refl

session_lem_example :
    jwt_middleware (library 30000000000) "key" some request handler unset blank ≡ (
      if leb ((5 + 60000000000) / 1000000000 * 1000000000) 30000000000
      then refuse "Token has expired" blank
      else handler
          (user (record { user_id = "7"; username = "ann"; email = "a@b.c"; role = "admin" }))
          blank)
session_lem_example =
    session_lem (library 30000000000) method_of "key" some request handler unset blank 5 30000000000
      60000000000 "7" "ann" "a@b.c" "admin" "key" "7" (library-IsLibrary 30000000000) (omega arith)
      signed_ann refl refl
