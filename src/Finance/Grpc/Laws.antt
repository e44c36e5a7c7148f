-- ===== src/Finance/Grpc/Laws.antt =====
-- A call of the client's method ends as the server's method of the same name does.
use aeternixth_go_lib.Prelude.{String, Option, none, some, ◌≡◌, refl, ap, ◌∙◌, sym, lookup}
use mathlib.Core.Path.{subst}
use aeternixth_go_lib.Finance.Grpc.Messages.{
  Kind, MessageOf, Box, fresh_message, create_deposit_request, create_deposit_response,
  create_withdraw_request, create_withdraw_response, approve_withdraw_request,
  approve_withdraw_response, reject_withdraw_request, refund_withdraw_request,
  create_transfer_request, create_transfer_response, empty, as_create_deposit, as_create_withdraw,
  as_approve_withdraw, as_reject_withdraw, as_refund_withdraw, as_create_transfer,
}
use aeternixth_go_lib.Finance.Grpc.{
  RpcError, Results, Outcome, returned, full_method_name, Method, FinanceServiceServer, Connection,
  out_or_error, invoke, Decoder, Interceptor, boxed, handle, after_decoding, asserted,
}
use aeternixth_go_lib.Finance.Grpc.Client
use aeternixth_go_lib.Finance.Grpc.Handlers.{Handler, service_desc, by_path}

-- grpc-go between the client and the server: the connection, how it decodes a request, and what it
-- makes of a handler's outcome.
pub record Wire (T : Type 0) : Type 0 where
  pub connection : Connection T
  pub decoder : (k : Kind) → MessageOf T k → Decoder T
  pub deliver : (j : Kind) → MessageOf T j → Outcome T → MessageOf T j × Option RpcError

-- An interceptor, if there is one, that does nothing but call the handler.
abbrev pub Transparent : (T : Type 0) → Option (Interceptor T) → Type 0
Transparent T none = Unit
Transparent T (some i) =
    (box : Box T) (path : String) (go : Box T → Outcome T) → i box path go ≡ go box

-- What grpc-go documents of a registered service: the method of a path is looked up in the table, a
-- message is after_decoding as it was sent, and a reply or an error status reaches the client.
pub record IsDocumented (T : Type 0) (net : Wire T) (srv : FinanceServiceServer T)
    (interceptor : Option (Interceptor T)) : Type 0 where
  pub dispatches :
      (path : String) (handler : Handler T)
      → lookup path (by_path T (service_desc T)) ≡ some handler
      → (k : Kind) (m : MessageOf T k) (j : Kind) (out : MessageOf T j)
      → net.connection path k (some m) j out
        ≡ net.deliver j out (handler srv (net.decoder k m) interceptor)
  pub decodes : (k : Kind) (m out : MessageOf T k) → net.decoder k m k out ≡ (m, none)
  pub delivers :
      (j : Kind) (out reply : MessageOf T j)
      → net.deliver j out (returned (some (j, some reply)) none) ≡ (reply, none)
  pub fails :
      (j : Kind) (out : MessageOf T j) (box : Box T) (err : RpcError)
      → (net.deliver j out (returned box (some err))).1 ≡ some err

-- The client gets the server's error, or its reply; gRPC cannot send nil without an error.
abbrev pub Answered : {A : Type 0} → Results A → Results A → Type 0
Answered (reply, some err) got = got ≡ (none, some err)
Answered (some reply, none) got = got ≡ (some reply, none)
Answered (none, none) got = Unit

out_or_error-some :
    {A : Type 0} (r : A × Option RpcError) (err : RpcError)
    → r.1 ≡ some err
    → out_or_error r ≡ (none, some err)
out_or_error-some (out, some e) err h = cc
out_or_error-some (out, none) err h = cc

module _ {T : Type 0} (net : Wire T) (srv : FinanceServiceServer T)
    (interceptor : Option (Interceptor T)) (d : IsDocumented T net srv interceptor)
    (transparent : Transparent T interceptor) where
  handle-boxed :
      (name : String) (k j : Kind) (as_request : Box T → Option (Option (MessageOf T k)))
      (method : Method T k j) (m : MessageOf T k) (dec : Decoder T) (i : Option (Interceptor T))
      → Transparent T i
      → dec k (fresh_message T k) ≡ (m, none)
      → as_request (some (k, some m)) ≡ some (some m)
      → handle T name k j as_request method dec i ≡ boxed T j (method (some m))
  unfolding handle
  handle-boxed name k j as_request method m dec none t e a =
      ap (after_decoding T name k j as_request method none) e
  handle-boxed name k j as_request method m dec (some i) t e a =
      ap (after_decoding T name k j as_request method (some i)) e
      ∙ (t (some (k, some m)) (full_method_name name)
            (λ box. asserted T k j method (as_request box))
          ∙ ap (asserted T k j method) a)

  deliver-Answered :
      (j : Kind) (r : Results (MessageOf T j))
      → Answered r (out_or_error (net.deliver j (fresh_message T j) (boxed T j r)))
  deliver-Answered j (some reply, none) = ap out_or_error (d.delivers j (fresh_message T j) reply)
  deliver-Answered j (none, none) = tt
  deliver-Answered j (reply, some err) =
      out_or_error-some (net.deliver j (fresh_message T j) (returned (some (j, reply)) (some err)))
        err (d.fails j (fresh_message T j) (some (j, reply)) err)

  -- A method whose handler has the common course.
  invoke-Answered :
      (name : String) (k j : Kind) (as_request : Box T → Option (Option (MessageOf T k)))
      (method : FinanceServiceServer T → Method T k j)
      → lookup (full_method_name name) (by_path T (service_desc T))
        ≡ some (λ s. handle T name k j as_request (method s))
      → (m : MessageOf T k) → as_request (some (k, some m)) ≡ some (some m)
      → Answered (method srv (some m)) (invoke T net.connection name k j (some m))
  invoke-Answered name k j as_request method found m a =
      subst
        (λ (r : MessageOf T j × Option RpcError). Answered (method srv (some m)) (out_or_error r))
        (sym (
          d.dispatches (full_method_name name) (λ s. handle T name k j as_request (method s)) found
            k m j (fresh_message T j)
          ∙ ap (net.deliver j (fresh_message T j)) (
              handle-boxed name k j as_request (method srv) m (net.decoder k m) interceptor
                transparent (d.decodes k m (fresh_message T k)) a)))
        (deliver-Answered j (method srv (some m)))

  -- With grpc-go as documented and no interceptor but one that only calls the handler: a call of
  -- each of the client's six methods with a message ends as the server's method of the same name
  -- does on that message, with its error where it has one and else with its reply, where that is
  -- not nil.
  pub client-Answered :
      (m0 : MessageOf T create_deposit_request) (m1 : MessageOf T create_withdraw_request)
      (m2 : MessageOf T approve_withdraw_request) (m3 : MessageOf T reject_withdraw_request)
      (m4 : MessageOf T refund_withdraw_request) (m5 : MessageOf T create_transfer_request)
      → Answered (srv.create_deposit (some m0)) (Client.create_deposit T net.connection (some m0))
        × Answered
            (srv.create_withdraw (some m1))
            (Client.create_withdraw T net.connection (some m1))
        × Answered
            (srv.approve_withdraw (some m2))
            (Client.approve_withdraw T net.connection (some m2))
        × Answered
            (srv.reject_withdraw (some m3))
            (Client.reject_withdraw T net.connection (some m3))
        × Answered
            (srv.refund_withdraw (some m4))
            (Client.refund_withdraw T net.connection (some m4))
        × Answered
            (srv.create_transfer (some m5))
            (Client.create_transfer T net.connection (some m5))
  unfolding service_desc lookup Client.create_deposit Client.create_withdraw Client.approve_withdraw
      Client.reject_withdraw Client.refund_withdraw Client.create_transfer
  client-Answered m0 m1 m2 m3 m4 m5 = (
    invoke-Answered "CreateDeposit" create_deposit_request create_deposit_response
        (as_create_deposit T) (λ s. s.create_deposit) refl m0 refl,
    invoke-Answered "CreateWithdraw" create_withdraw_request create_withdraw_response
        (as_create_withdraw T) (λ s. s.create_withdraw) refl m1 refl,
    invoke-Answered "ApproveWithdraw" approve_withdraw_request approve_withdraw_response
        (as_approve_withdraw T) (λ s. s.approve_withdraw) refl m2 refl,
    invoke-Answered "RejectWithdraw" reject_withdraw_request empty (as_reject_withdraw T)
        (λ s. s.reject_withdraw) refl m3 refl,
    invoke-Answered "RefundWithdraw" refund_withdraw_request empty (as_refund_withdraw T)
        (λ s. s.refund_withdraw) refl m4 refl,
    invoke-Answered "CreateTransfer" create_transfer_request create_transfer_response
        (as_create_transfer T) (λ s. s.create_transfer) refl m5 refl,
  )
