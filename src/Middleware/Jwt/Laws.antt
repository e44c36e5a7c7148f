-- ===== src/Middleware/Jwt/Laws.antt =====
-- What the two authentications of middleware/jwt_middleware.go let through.
use Prim.Native.String.{◌++◌}
use text.Mathlib.TextLemmas.{nil-append, cons-append}
use aeternixth_go_lib.Prelude.{
  String, Option, none, some, ◌≡◌, ◌⊎◌, inl, inr, refl, ap, ◌∙◌, code, Char, str_eq, eq_iff, ◌==◌,
  if◌then◌else◌, arith, Bool-cases, false, ◌↔◌,
}
use text.Mathlib.TextEquality.{Char-path}
use aeternixth_go_lib.Jwt.{Library, TokenError, expired_token, invalid_token, validate_token}
use aeternixth_go_lib.Web.{Request, Reply}
use aeternixth_go_lib.Middleware.Jwt.{
  Claims, UserInfo, Local, user, before_space, cut_space, bearer_token, user_info, Next, refuse,
  jwt_middleware, optional_jwt_middleware,
}

space_char : (c : Char) → code c ≡ b' ' → String.◌∷◌ c "" ≡ " "
space_char c h = ap (λ d. String.◌∷◌ d "") (Char-path c _ h)

cut_here :
    (c : Char) (s a b : String)
    → code c ≡ b' '
    → ◌≡◌ {A = Option (String × String)} (some ("", s)) (some (a, b))
    → String.◌∷◌ c s ≡ a ++ (" " ++ b)
cut_here c s a b h e =
    let ea : "" ≡ a = cc in
    let eb : s ≡ b = cc in rw (← ea, ← eb, nil-append, ← space_char c h, cons-append, nil-append)

before_space_lem :
    (c : Char) (found : Option (String × String)) (a b : String)
    → before_space c found ≡ some (a, b)
    → (a' : String) × (found ≡ some (a', b)) × (a ≡ String.◌∷◌ c a')
before_space_lem c none a b h = cc
before_space_lem c (some (a', b')) a b h = (a', cc, cc)

cut_space_sound : (s a b : String) → cut_space s ≡ some (a, b) → s ≡ a ++ (" " ++ b)
unfolding cut_space
cut_space_sound String.[] a b h = cc
cut_space_sound (String.◌∷◌ c s) a b h = elim (Bool-cases (code c == b' ')) [
  | inl space ↦ cut_here c s a b (ground arith) (rw space at h)
  | inr other ↦
      let (a', found, ea) = before_space_lem c (cut_space s) a b (rw other at h) in
      rw (ea, cons-append) (ap (String.◌∷◌ c) (cut_space_sound s a' b found))
]

cut_space_bearer : (t : String) → cut_space ("Bearer" ++ (" " ++ t)) ≡ some ("Bearer", t)
unfolding cut_space
cut_space_bearer t = rw (
  cons-append, cons-append, cons-append, cons-append, cons-append, cons-append, cons-append,
  nil-append, nil-append,
)

scheme_lem :
    (found : Option (String × String)) (t : String)
    → (elim found [
      | none ↦ none
      | some (scheme, rest) ↦ if str_eq scheme "Bearer" then some rest else none
    ])
      ≡ some t
    → found ≡ some ("Bearer", t)
scheme_lem none t h = cc
scheme_lem (some (scheme, rest)) t h = ground (arith, eq_iff scheme "Bearer")

-- A header has a token exactly where it is "Bearer", a space and the token.
pub bearer_token_iff :
    (header t : String) → (bearer_token header ≡ some t) ↔ (header ≡ "Bearer" ++ (" " ++ t))
unfolding bearer_token
bearer_token_iff header t = (
  λ h. cut_space_sound header "Bearer" t (scheme_lem (cut_space header) t h),
  λ e. rw e (rw (cut_space_bearer t, bearer_token)),
)

bearer_token_empty : bearer_token "" ≡ none
unfolding bearer_token
bearer_token_empty = refl

pub header_given :
    (header text : String) → bearer_token header ≡ some text → str_eq header "" ≡ false
header_given header text b = elim (Bool-cases (str_eq header "")) [
  | inl e ↦
      let none_there : bearer_token header ≡ none =
        ap bearer_token ((eq_iff header "").0 e) ∙ bearer_token_empty in
      cc
  | inr e ↦ e
]

module _ {Uuid : Type 0} (lib : Library Claims) (secret : String)
    (parse_uuid : String → Option Uuid) where
  -- The request carries a bearer token that is valid, and `u` is the user that it names.
  pub record Authenticated (req : Request) (u : UserInfo Uuid) : Type 0 where
    pub text : String
    pub claims : Claims
    pub id : Uuid
    pub header_is : req.header "Authorization" ≡ "Bearer" ++ (" " ++ text)
    pub valid : validate_token lib secret text ≡ inl claims
    pub parsed : parse_uuid claims.user_id ≡ some id
    pub info : u ≡ user_info claims id

module _ {Any Uuid : Type 0} (lib : Library Claims) (secret : String)
    (parse_uuid : String → Option Uuid) (req : Request) (next : Next Any Uuid) (local : Local Uuid)
    (reply : Reply Any) where
  -- Both middlewares run the next handler with the authenticated user.
  pub record Admitted : Type 0 where
    pub user_is : UserInfo Uuid
    pub authenticated : Authenticated lib secret parse_uuid req user_is
    pub required :
        jwt_middleware lib secret parse_uuid req next local reply ≡ next (user user_is) reply
    pub optional :
        optional_jwt_middleware lib secret parse_uuid req next local reply
        ≡ next (user user_is) reply

  -- No user is authenticated: the one refuses, and the other leaves the user value as it is.
  pub record Anonymous : Type 0 where
    pub nobody : (u : UserInfo Uuid) → ¬ Authenticated lib secret parse_uuid req u
    pub message : String
    pub required : jwt_middleware lib secret parse_uuid req next local reply ≡ refuse message reply
    pub optional :
        optional_jwt_middleware lib secret parse_uuid req next local reply ≡ next local reply

  abbrev header : String
  header = req.header "Authorization"

  -- The token is the only one that the header can carry.
  same_text :
      (text : String) {u : UserInfo Uuid}
      → bearer_token header ≡ some text
      → (a : Authenticated lib secret parse_uuid req u) → a.text ≡ text
  same_text text b a =
      let b' : bearer_token header ≡ some a.text = (bearer_token_iff header a.text).1 a.header_is in
      cc

  -- A header without a token.
  without_token : bearer_token header ≡ none → Anonymous
  unfolding jwt_middleware optional_jwt_middleware
  without_token b = record {
    nobody = λ u a.
        let there : bearer_token header ≡ some a.text =
          (bearer_token_iff header a.text).1 a.header_is in
        cc;
    message =
        if str_eq header ""
        then "Missing authorization header"
        else "Invalid authorization header format";
    required = ground arith;
    optional = ground arith;
  }

  -- A token that is refused.
  with_invalid :
      (text : String) (err : TokenError)
      → bearer_token header ≡ some text
      → validate_token lib secret text ≡ inr err
      → Anonymous
  unfolding jwt_middleware optional_jwt_middleware
  with_invalid text err b v = record {
    nobody = λ u a.
        let same : a.text ≡ text = same_text text b a in
        let there : validate_token lib secret text ≡ inl a.claims = rw (← same) a.valid in cc;
    message = elim err [ expired_token ↦ "Token has expired" | invalid_token ↦ "Invalid token" ];
    required = rw (header_given header text b, b, v) (ground arith);
    optional = rw (header_given header text b, b, v);
  }

  -- A valid token.
  with_claims :
      (text : String) (claims : Claims) (id : Option Uuid)
      → bearer_token header ≡ some text
      → validate_token lib secret text ≡ inl claims
      → parse_uuid claims.user_id ≡ id
      → Admitted ⊎ Anonymous
  unfolding jwt_middleware optional_jwt_middleware
  with_claims text claims none b v p = inr (record {
    nobody = λ u a.
        let same : a.text ≡ text = same_text text b a in
        let there : validate_token lib secret text ≡ inl a.claims = rw (← same) a.valid in
        let given = a.parsed in
        let claims_same : a.claims ≡ claims = cc in
        let gone : parse_uuid a.claims.user_id ≡ none = rw claims_same p in cc;
    message = "Invalid user ID in token";
    required = rw (header_given header text b, b, v, p);
    optional = rw (header_given header text b, b, v, p);
  })
  with_claims text claims (some id) b v p = inl (record {
    user_is = user_info claims id;
    authenticated = record {
      text = text;
      claims = claims;
      id = id;
      header_is = (bearer_token_iff header text).0 b;
      valid = v;
      parsed = p;
      info = refl;
    };
    required = rw (header_given header text b, b, v, p);
    optional = rw (header_given header text b, b, v, p);
  })

  -- Either a user is authenticated by a valid bearer token, and both middlewares run the next
  -- handler with that user, or nobody is, and the required one refuses without running it while
  -- the optional one runs it with the user value as it was.
  pub authentication : Admitted ⊎ Anonymous
  authentication = from_header (bearer_token header) refl
    where
      from_token :
          (text : String) (v : Claims ⊎ TokenError)
          → bearer_token header ≡ some text
          → validate_token lib secret text ≡ v
          → Admitted ⊎ Anonymous
      from_token text (inl claims) b v =
          with_claims text claims (parse_uuid claims.user_id) b v refl
      from_token text (inr err) b v = inr (with_invalid text err b v)

      from_header : (b : Option String) → bearer_token header ≡ b → Admitted ⊎ Anonymous
      from_header none b = inr (without_token b)
      from_header (some text) b = from_token text (validate_token lib secret text) b refl
