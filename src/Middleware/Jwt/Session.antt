-- ===== src/Middleware/Jwt/Session.antt =====
-- From a login to its requests: NewClaims and JWTMiddleware of middleware/jwt_middleware.go with
-- GenerateToken and ValidateToken of jwt/jwt.go between them.
use Prim.Native.String.{◌++◌}
use aeternixth_go_lib.Prelude.{
  ℕ, ◌+◌, ◌*◌, ◌/◌, ◌≤◌, Bool, true, false, leb, ltb, String, Option, some, ◌≡◌, refl, str_eq, ap,
  ◌∙◌, if◌then◌else◌, arith,
}
use aeternixth_go_lib.Jwt.{Library, Method, generate_token, validate_token}
use aeternixth_go_lib.Jwt.Laws.{
  Validity, current, expired, too_early, IsLibrary, answer_at, validate_token-generate_token,
}
use aeternixth_go_lib.Middleware.Jwt.{
  Claims, new_claims, numeric_date, Local, user, user_info, Next, refuse, bearer_token,
  jwt_middleware,
}
use aeternixth_go_lib.Middleware.Jwt.Laws.{bearer_token_iff, header_given}
use aeternixth_go_lib.Web.{Request, Reply}

-- Documented behaviour of golang-jwt on the claims of a token at an instant: it has expired from its
-- expiry on, and holds from its start on.
abbrev pub valid_at : ℕ → Claims → Validity
valid_at now claims =
    if leb (claims.registered.expires_at * 1000000000) now
    then expired
    else if ltb now (claims.registered.not_before * 1000000000)
    then too_early
    else current

valid_at-new_claims :
    (login now : ℕ) (id name mail job : String) (expiry : ℕ)
    → login ≤ now
    → valid_at now (new_claims login id name mail job expiry)
      ≡ (if leb (numeric_date (login + expiry) * 1000000000) now then expired else current)
unfolding new_claims
valid_at-new_claims login now id name mail job expiry h = ground arith

by_flag :
    {A : Type 0} (b : Bool) (x y z : A)
    → (elim (if b then expired else current) [ current ↦ x | expired ↦ y | too_early ↦ z ])
      ≡ (if b then y else x)
by_flag true x y z = refl
by_flag false x y z = refl

module _ {Any Uuid : Type 0} (lib : Library Claims) (method_of : String → Option Method)
    (secret : String) (parse_uuid : String → Option Uuid) where
  with_token :
      (req : Request) (next : Next Any Uuid) (local : Local Uuid) (reply : Reply Any)
      (text : String) (claims : Claims) (uuid : Uuid) (v : Validity)
      → bearer_token (req.header "Authorization") ≡ some text
      → str_eq (req.header "Authorization") "" ≡ false
      → validate_token lib secret text ≡ answer_at v claims
      → parse_uuid claims.user_id ≡ some uuid
      → jwt_middleware lib secret parse_uuid req next local reply ≡ elim v [
        | current ↦ next (user (user_info claims uuid)) reply
        | expired ↦ refuse "Token has expired" reply
        | too_early ↦ refuse "Invalid token" reply
      ]
  unfolding jwt_middleware
  with_token req next local reply text claims uuid current b g v p = rw (g, b, v, p)
  with_token req next local reply text claims uuid expired b g v p = rw (g, b, v)
  with_token req next local reply text claims uuid too_early b g v p = rw (g, b, v)

  -- A user who logs in and sends the signed token as a bearer token is let in, with the user of
  -- the claims, until the expiry in whole seconds, and is refused as expired from then on; golang-
  -- jwt being as documented, and the user's identifier a UUID.
  pub session_lem :
      (req : Request) (next : Next Any Uuid) (local : Local Uuid) (reply : Reply Any)
      (login now expiry : ℕ) (id name mail job text : String) (uuid : Uuid)
      → IsLibrary lib method_of (valid_at now)
      → login ≤ now
      → generate_token lib secret (new_claims login id name mail job expiry) ≡ some text
      → req.header "Authorization" ≡ "Bearer" ++ (" " ++ text)
      → parse_uuid id ≡ some uuid
      → jwt_middleware lib secret parse_uuid req next local reply ≡ (
          if leb ((login + expiry) / 1000000000 * 1000000000) now
          then refuse "Token has expired" reply
          else next
              (user (record { user_id = uuid; username = name; email = mail; role = job }))
              reply)
  unfolding new_claims
  session_lem req next local reply login now expiry id name mail job text uuid l l' g b p =
      let claims = new_claims login id name mail job expiry in
      let given = (bearer_token_iff (req.header "Authorization") text).1 b in
      with_token req next local reply text claims uuid (valid_at now claims) given
        (header_given (req.header "Authorization") text given)
        (validate_token-generate_token lib method_of (valid_at now) secret claims text l g) p
      ∙ ap
          (λ v. elim v [
            | current ↦ next (user (user_info claims uuid)) reply
            | expired ↦ refuse "Token has expired" reply
            | too_early ↦ refuse "Invalid token" reply
          ])
          (valid_at-new_claims login now id name mail job expiry l')
      ∙ by_flag (leb ((login + expiry) / 1000000000 * 1000000000) now)
          (next (user (user_info claims uuid)) reply) (refuse "Token has expired" reply)
          (refuse "Invalid token" reply)
