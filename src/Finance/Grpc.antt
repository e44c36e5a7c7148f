-- ===== src/Finance/Grpc.antt =====
-- proto/finance/v1/finance_grpc.pb.go: the client, the handlers and the table of the service. A pointer
-- is an option; contexts and call options go through unchanged and are left out.
pub mod Messages
pub mod Client
pub mod Handlers
pub mod Laws
use Prim.Native.String.{◌++◌}
use aeternixth_go_lib.Prelude.{String, List, [], ◌∷◌, Option, none, some, ℕ}
use aeternixth_go_lib.Finance.Grpc.Messages.{
  Kind, create_deposit_request, create_deposit_response, create_withdraw_request,
  create_withdraw_response, approve_withdraw_request, approve_withdraw_response,
  reject_withdraw_request, refund_withdraw_request, create_transfer_request,
  create_transfer_response, empty, MessageOf, Box, fresh_message,
}

-- An error of gRPC: its code and its message.
pub record RpcError : Type 0 where
  pub code : ℕ
  pub message : String

-- What Go's two results are: the pointer and the error.
abbrev pub Results : Type 0 → Type 0
Results A = Option A × Option RpcError

-- How a handler leaves: with a boxed reply and an error, or by a failed type assertion.
pub data Outcome (T : Type 0) : Type 0 where
  returned : Box T → Option RpcError → Outcome T
  panicked : Outcome T

-- The constants `FinanceService_..._FullMethodName`
abbrev pub full_method_name : String → String
full_method_name name = "/finance.v1.FinanceService/" ++ name

-- The two ends of each method of the client.
abbrev pub out_or_error : {A : Type 0} → A × Option RpcError → Results A
out_or_error (out, some err) = (none, some err)
out_or_error (out, none) = (some out, none)

module _ (T : Type 0) where
  -- A method of the server, by the kinds of its request and of its reply.
  abbrev pub Method : Kind → Kind → Type 0
  Method k j = Option (MessageOf T k) → Results (MessageOf T j)

  pub record FinanceServiceServer : Type 0 where
    pub create_deposit : Method create_deposit_request create_deposit_response
    pub create_withdraw : Method create_withdraw_request create_withdraw_response
    pub approve_withdraw : Method approve_withdraw_request approve_withdraw_response
    pub reject_withdraw : Method reject_withdraw_request empty
    pub refund_withdraw : Method refund_withdraw_request empty
    pub create_transfer : Method create_transfer_request create_transfer_response

  -- `ClientConnInterface.Invoke`: what `out` holds after the call, and its error.
  abbrev pub Connection : Type 0
  Connection =
      String
      → (k : Kind) → Option (MessageOf T k)
      → (j : Kind) → MessageOf T j
      → MessageOf T j × Option RpcError

  -- A method of the client
  abbrev pub invoke : Connection → String → (k j : Kind) → Method k j
  invoke cc name k j req = out_or_error (cc (full_method_name name) k req j (fresh_message T j))

  -- What decodes the request's bytes into a message, and its error.
  abbrev pub Decoder : Type 0
  Decoder = (k : Kind) → MessageOf T k → MessageOf T k × Option RpcError

  -- `grpc.UnaryServerInterceptor`, with the full name of its information
  abbrev pub Interceptor : Type 0
  Interceptor = Box T → String → (Box T → Outcome T) → Outcome T

  abbrev pub boxed : (j : Kind) → Results (MessageOf T j) → Outcome T
  boxed j (reply, err) = returned (some (j, reply)) err

  -- A call of the server's method on a request of an interface type.
  abbrev pub asserted : (k j : Kind) → Method k j → Option (Option (MessageOf T k)) → Outcome T
  asserted k j method none = panicked
  asserted k j method (some req) = boxed j (method req)

  abbrev pub after_decoding :
      String
      → (k j : Kind) → (Box T → Option (Option (MessageOf T k)))
      → Method k j
      → Option Interceptor
      → MessageOf T k × Option RpcError
      → Outcome T
  after_decoding name k j as_request method interceptor (req, some err) = returned none (some err)
  after_decoding name k j as_request method none (req, none) = boxed j (method (some req))
  after_decoding name k j as_request method (some interceptor) (req, none) =
      interceptor (some (k, some req)) (full_method_name name)
        (λ box. asserted k j method (as_request box))

  -- The course of each handler.
  unfoldable pub handle :
      String
      → (k j : Kind) → (Box T → Option (Option (MessageOf T k)))
      → Method k j
      → Decoder
      → Option Interceptor
      → Outcome T
  handle name k j as_request method dec interceptor =
      after_decoding name k j as_request method interceptor (dec k (fresh_message T k))
