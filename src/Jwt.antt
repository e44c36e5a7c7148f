-- ===== src/Jwt.antt =====
-- jwt/jwt.go: the token service over golang-jwt, which is a parameter.
pub mod Laws
use aeternixth_go_lib.Prelude.{String, Option, none, some, ◌⊎◌, inl, inr, Bool, true, false}

-- The signing methods that the key function tells apart.
pub data Method : Type 0 where
  hmac : Method
  other_method : Method

-- What `jwt.ParseWithClaims` ends in: an error, which may wrap `ErrTokenExpired`, or a token with
-- its claims (none where they are not of the service's type) and its `Valid` flag.
pub data Parsed (Claims : Type 0) : Type 0 where
  failed : Bool → Parsed Claims
  token : Option Claims → Bool → Parsed Claims

pub data TokenError : Type 0 where
  invalid_token expired_token : TokenError

-- golang-jwt: `sign` is `NewWithClaims` with HS256 and `SignedString`, and `parse` calls its key
-- function, which refuses by none, on the method of the token's header.
pub record Library (Claims : Type 0) : Type 0 where
  pub sign : Claims → String → Option String
  pub parse : String → (Method → Option String) → Parsed Claims

module _ {Claims : Type 0} (lib : Library Claims) (secret_key : String) where
  unfoldable pub generate_token : Claims → Option String
  generate_token claims = lib.sign claims secret_key

  -- The function that `ValidateToken` hands to the parser.
  unfoldable pub key_of : Method → Option String
  key_of hmac = some secret_key
  key_of other_method = none

  unfoldable pub validate_token : String → Claims ⊎ TokenError
  unfolding key_of
  validate_token text = elim (lib.parse text key_of) [
    | failed expired ↦ inr (elim expired [ true ↦ expired_token | false ↦ invalid_token ])
    | token none valid ↦ inr invalid_token
    | token (some claims) valid ↦ elim valid [ true ↦ inl claims | false ↦ inr invalid_token ]
  ]
