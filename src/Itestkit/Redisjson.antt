-- ===== src/Itestkit/Redisjson.antt =====
-- itestkit/cleanup.go: `RedisSetJSON` and `RedisGetJSON`, over go-redis and encoding/json.
use aeternixth_go_lib.Prelude.{ℕ, String, List, Option, none, some, ◌⊎◌, inl, inr}

-- `redis.Nil`, or another error with its text.
pub data RedisError : Type 0 where
  redis_nil : RedisError
  other_error : String → RedisError

-- `wrapped` is `fmt.Errorf` with a label, the key where the label names it, and `%w`.
pub data HelperError : Type 0 where
  wrapped : String → Option String → String → HelperError
  unwrapped : RedisError → HelperError

-- `set` stores bytes for a key with a time to live, 0 for none; its answer is an error's text, or nil.
-- The state is that of the servers at an instant; `unmarshal` gives what `out` holds after it, with the error's text, if any.
pub record Library (Any : Type 0) : Type 1 where
  pub State : Type 0
  pub parse_url : String → Option String
  pub marshal : Any → List ℕ ⊎ String
  pub unmarshal : List ℕ → Any → Any × Option String
  pub set : String → String → List ℕ → ℕ → State → Option String × State
  pub get : String → String → State → List ℕ ⊎ RedisError

module _ {Any : Type 0} (lib : Library Any) where
  open lib use {State, parse_url, marshal, unmarshal, set, get}

  abbrev set_error : String → Option String → Option HelperError
  set_error key none = none
  set_error key (some err) = some (wrapped "set" (some key) err)

  abbrev set_marshalled : String → String → ℕ → State → List ℕ ⊎ String → Option HelperError × State
  set_marshalled url key ttl st (inr err) = (some (wrapped "marshal" none err), st)
  set_marshalled url key ttl st (inl bytes) =
      let (answer, st') = set url key bytes ttl st in (set_error key answer, st')

  abbrev set_parsed : String → String → Any → ℕ → State → Option String → Option HelperError × State
  set_parsed url key val ttl st (some err) = (some (wrapped "parse redis url" none err), st)
  set_parsed url key val ttl st none = set_marshalled url key ttl st (marshal val)

  -- `RedisSetJSON`
  unfoldable pub redis_set_json : String → String → Any → ℕ → State → Option HelperError × State
  redis_set_json url key val ttl st = set_parsed url key val ttl st (parse_url url)

  abbrev decoded : Any × Option String → Any × Option HelperError
  decoded (out, none) = (out, none)
  decoded (out, some err) = (out, some (wrapped "unmarshal" none err))

  abbrev unmarshalled : Any → List ℕ ⊎ RedisError → Any × Option HelperError
  unmarshalled out (inr err) = (out, some (unwrapped err))
  unmarshalled out (inl bytes) = decoded (unmarshal bytes out)

  abbrev get_parsed : String → String → Any → State → Option String → Any × Option HelperError
  get_parsed url key out st (some err) = (out, some (wrapped "parse redis url" none err))
  get_parsed url key out st none = unmarshalled out (get url key st)

  -- `RedisGetJSON`: what `out` holds after it, and its error. `json.Unmarshal` writes into what
  -- `out` held before.
  unfoldable pub redis_get_json : String → String → Any → State → Any × Option HelperError
  redis_get_json url key out st = get_parsed url key out st (parse_url url)
