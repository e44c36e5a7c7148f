-- ===== src/Jwt/Laws.antt =====
-- What jwt/jwt.go promises, from the documented behaviour of golang-jwt.
use aeternixth_go_lib.Prelude.{
  String, Option, none, some, ◌≡◌, ◌≢◌, ◌⊎◌, inl, inr, true, false, refl,
}
use aeternixth_go_lib.Jwt.{
  Method, hmac, other_method, Parsed, failed, token, TokenError, invalid_token, expired_token,
  Library, generate_token, key_of, validate_token,
}

-- Where the present stands to the validity of claims.
pub data Validity : Type 0 where
  current expired too_early : Validity

abbrev pub parsed_at : {Claims : Type 0} → Validity → Claims → Parsed Claims
parsed_at current claims = token (some claims) true
parsed_at expired claims = failed true
parsed_at too_early claims = failed false

abbrev pub answer_at : {Claims : Type 0} → Validity → Claims → Claims ⊎ TokenError
answer_at current claims = inl claims
answer_at expired claims = inr expired_token
answer_at too_early claims = inr invalid_token

-- Documented behaviour of golang-jwt, for texts whose header names the method `method_of`, and for
-- claims whose validity is now `validity`.
pub record IsLibrary {Claims : Type 0} (lib : Library Claims) (method_of : String → Option Method)
    (validity : Claims → Validity) : Type 0 where
  -- A token whose key function refuses its method is not verifiable, and not expired.
  pub unverifiable :
      (text : String) (m : Method) (key : Method → Option String)
      → method_of text ≡ some m
      → key m ≡ none
      → lib.parse text key ≡ failed false
  -- What is not a token is malformed.
  pub malformed :
      (text : String) (key : Method → Option String)
      → method_of text ≡ none
      → lib.parse text key ≡ failed false
  -- Whoever gives the key of a signed token gets its claims while they are current.
  pub signed :
      (claims : Claims) (secret text : String) (key : Method → Option String)
      → lib.sign claims secret ≡ some text
      → key hmac ≡ some secret
      → lib.parse text key ≡ parsed_at (validity claims) claims

module _ {Claims : Type 0} (lib : Library Claims) (method_of : String → Option Method)
    (validity : Claims → Validity) (secret : String) where
  -- With a golang-jwt as documented, no text is accepted whose header does not name an HMAC
  -- method: it is refused as invalid.
  pub validate_token_method :
      (text : String)
      → IsLibrary lib method_of validity
      → method_of text ≢ some hmac
      → validate_token lib secret text ≡ inr invalid_token
  unfolding validate_token
  validate_token_method text h other = go (method_of text) refl
    where
      go :
          (m : Option Method)
          → method_of text ≡ m
          → validate_token lib secret text ≡ inr invalid_token
      go none e = rw (h.malformed text (key_of lib secret) e, validate_token)
      go (some hmac) e = absurd (other e)
      go (some other_method) e =
          rw (h.unverifiable text other_method (key_of lib secret) e refl, validate_token)

  answer_of_parsed :
      (claims : Claims) (text : String) (v : Validity)
      → lib.parse text (key_of lib secret) ≡ parsed_at v claims
      → validate_token lib secret text ≡ answer_at v claims
  unfolding validate_token
  answer_of_parsed claims text current e = rw (e, validate_token)
  answer_of_parsed claims text expired e = rw (e, validate_token)
  answer_of_parsed claims text too_early e = rw (e, validate_token)

  -- With a golang-jwt as documented, a generated token is accepted with its claims while they are
  -- current, refused as expired once they have expired, and as invalid before they hold.
  pub validate_token-generate_token :
      (claims : Claims) (text : String)
      → IsLibrary lib method_of validity
      → generate_token lib secret claims ≡ some text
      → validate_token lib secret text ≡ answer_at (validity claims) claims
  unfolding generate_token key_of
  validate_token-generate_token claims text h e =
      answer_of_parsed claims text (validity claims) (h.signed claims secret text _ e refl)
