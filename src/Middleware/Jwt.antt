-- ===== src/Middleware/Jwt.antt =====
-- middleware/jwt_middleware.go: the required and the optional authentication. `uuid.Parse` is a
-- parameter.
pub mod Laws
pub mod Session
use Prim.Native.String.{◌++◌}
use aeternixth_go_lib.Prelude.{
  ℕ, ◌+◌, ◌/◌, String, Option, none, some, ◌⊎◌, inl, inr, code, Char, str_eq, ◌==◌, if◌then◌else◌,
}
use aeternixth_go_lib.Errors.{AppError, GoError, app, new_unauthorized}
use aeternixth_go_lib.Jwt.{Library, TokenError, expired_token, invalid_token, validate_token}
use aeternixth_go_lib.Web.{Request, Exit, Reply, returned}

-- The registered claims that the code sets, in whole seconds since the epoch
pub record RegisteredClaims : Type 0 where
  pub expires_at : ℕ
  pub issued_at : ℕ
  pub not_before : ℕ

pub record Claims : Type 0 where
  pub user_id : String
  pub username : String
  pub email : String
  pub role : String
  pub registered : RegisteredClaims

-- `NewNumericDate`, which cuts an instant to seconds
abbrev pub numeric_date : ℕ → ℕ
numeric_date instant = instant / 1000000000

-- `NewClaims` at the instant `now`, for an expiry that is not negative
unfoldable pub new_claims : ℕ → String → String → String → String → ℕ → Claims
new_claims now id name mail job expiry = record {
  user_id = id;
  username = name;
  email = mail;
  role = job;
  registered = record {
    expires_at = numeric_date (now + expiry);
    issued_at = numeric_date now;
    not_before = numeric_date now;
  };
}

pub record UserInfo (Uuid : Type 0) : Type 0 where
  pub user_id : Uuid
  pub username : String
  pub email : String
  pub role : String

-- What `c.Locals("user")` holds: nil, a `UserInfo`, or a value of another type.
pub data Local (Uuid : Type 0) : Type 0 where
  unset : Local Uuid
  user : UserInfo Uuid → Local Uuid
  foreign : Local Uuid

abbrev before_space : Char → Option (String × String) → Option (String × String)
before_space c none = none
before_space c (some (a, b)) = some (String.◌∷◌ c a, b)

-- `strings.SplitN(s, " ", 2)`, where it gives two parts
unfoldable pub cut_space : String → Option (String × String)
cut_space String.[] = none
cut_space (String.◌∷◌ c s) = if code c == b' ' then some ("", s) else before_space c (cut_space s)

-- The token of a well-formed Authorization header.
unfoldable pub bearer_token : String → Option String
unfolding cut_space
bearer_token header = elim (cut_space header) [
  | none ↦ none
  | some (scheme, rest) ↦ if str_eq scheme "Bearer" then some rest else none
]

abbrev pub user_info : {Uuid : Type 0} → Claims → Uuid → UserInfo Uuid
user_info claims id = record {
  user_id = id;
  username = claims.username;
  email = claims.email;
  role = claims.role;
}

-- A handler runs on the request's user value, and on the reply as it is so far.
abbrev pub Next : Type 0 → Type 0 → Type 0
Next Any Uuid = Local Uuid → Reply Any → Exit Any

abbrev pub refuse : {Any : Type 0} → String → Reply Any → Exit Any
refuse message reply = returned (some (app (new_unauthorized message))) reply

module _ {Any Uuid : Type 0} (lib : Library Claims) (secret_key : String)
    (parse_uuid : String → Option Uuid) where
  -- `JWTMiddleware`
  unfoldable pub jwt_middleware : Request → Next Any Uuid → Local Uuid → Reply Any → Exit Any
  jwt_middleware req next local reply =
      let header = req.header "Authorization" in
      if str_eq header ""
      then refuse "Missing authorization header" reply
      else elim (bearer_token header) [
        | none ↦ refuse "Invalid authorization header format" reply
        | some text ↦ elim (validate_token lib secret_key text) [
          | inr expired_token ↦ refuse "Token has expired" reply
          | inr invalid_token ↦ refuse "Invalid token" reply
          | inl claims ↦ elim (parse_uuid claims.user_id) [
            | none ↦ refuse "Invalid user ID in token" reply
            | some id ↦ next (user (user_info claims id)) reply
          ]
        ]
      ]

  -- `OptionalJWTMiddleware`
  unfoldable pub optional_jwt_middleware :
      Request → Next Any Uuid → Local Uuid → Reply Any → Exit Any
  optional_jwt_middleware req next local reply =
      let header = req.header "Authorization" in
      if str_eq header "" then next local reply else elim (bearer_token header) [
        | none ↦ next local reply
        | some text ↦ elim (validate_token lib secret_key text) [
          | inr err ↦ next local reply
          | inl claims ↦ elim (parse_uuid claims.user_id) [
            | none ↦ next local reply
            | some id ↦ next (user (user_info claims id)) reply
          ]
        ]
      ]
