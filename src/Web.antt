-- ===== src/Web.antt =====
-- What the handlers see of Fiber: the request, the reply being built, and how a handler ends.
-- JSON encoding is Fiber's; a reply holds the value that is encoded.
use aeternixth_go_lib.Prelude.{ℕ, Bool, String, Option}
use aeternixth_go_lib.Errors.{GoError, ErrorResponse}

pub record Request : Type 0 where
  pub method : String
  pub path : String
  pub header : String → String

-- `response.SuccessResponse`; its `Error` is always nil.
pub record SuccessResponse (Any : Type 0) : Type 0 where
  pub success : Bool
  pub payload : Any

pub data Body (Any : Type 0) : Type 0 where
  empty : Body Any
  succeeded : SuccessResponse Any → Body Any
  failed : ErrorResponse Any → Body Any

pub record Reply (Any : Type 0) : Type 0 where
  pub status : ℕ
  pub body : Body Any

-- How a handler leaves: it returns an error or nil, or it panics with a value.
pub data Panic (Any : Type 0) : Type 0 where
  error : GoError Any → Panic Any
  text : String → Panic Any
  value : Any → Panic Any

pub data Exit (Any : Type 0) : Type 0 where
  returned : Option (GoError Any) → Reply Any → Exit Any
  panicked : Panic Any → Reply Any → Exit Any
