-- ===== src/Finance/Grpc/Handlers.antt =====
-- proto/finance/v1/finance_grpc.pb.go: the handlers, their table, and the server that implements
-- nothing.
use Prim.Native.String.{◌++◌}
use aeternixth_go_lib.Prelude.{String, List, [], ◌∷◌, Option, none, some}
use aeternixth_go_lib.Finance.Grpc.Messages.{
  create_deposit_request, create_deposit_response, create_withdraw_request,
  create_withdraw_response, approve_withdraw_request, approve_withdraw_response,
  reject_withdraw_request, refund_withdraw_request, create_transfer_request,
  create_transfer_response, empty, as_create_deposit, as_create_withdraw, as_approve_withdraw,
  as_reject_withdraw, as_refund_withdraw, as_create_transfer,
}
use aeternixth_go_lib.Finance.Grpc.{
  Results, FinanceServiceServer, Decoder, Interceptor, Outcome, handle,
}

-- A method of `UnimplementedFinanceServiceServer`
unfoldable pub not_implemented : {A : Type 0} → String → Results A
not_implemented name =
    (none, some (record { code = 12; message = "method " ++ (name ++ " not implemented") }))

-- `ServiceName` of `FinanceService_ServiceDesc`
abbrev pub service_name : String
service_name = "finance.v1.FinanceService"

module _ (T : Type 0) where
  -- `grpc.MethodDesc.Handler`
  abbrev pub Handler : Type 0
  Handler = FinanceServiceServer T → Decoder T → Option (Interceptor T) → Outcome T

  -- `_FinanceService_CreateDeposit_Handler`
  unfoldable pub create_deposit_handler : Handler
  unfolding handle
  create_deposit_handler srv =
      handle T "CreateDeposit" create_deposit_request create_deposit_response (as_create_deposit T)
        srv.create_deposit

  -- `_FinanceService_CreateWithdraw_Handler`
  unfoldable pub create_withdraw_handler : Handler
  unfolding handle
  create_withdraw_handler srv =
      handle T "CreateWithdraw" create_withdraw_request create_withdraw_response
        (as_create_withdraw T) srv.create_withdraw

  -- `_FinanceService_ApproveWithdraw_Handler`
  unfoldable pub approve_withdraw_handler : Handler
  unfolding handle
  approve_withdraw_handler srv =
      handle T "ApproveWithdraw" approve_withdraw_request approve_withdraw_response
        (as_approve_withdraw T) srv.approve_withdraw

  -- `_FinanceService_RejectWithdraw_Handler`
  unfoldable pub reject_withdraw_handler : Handler
  unfolding handle
  reject_withdraw_handler srv =
      handle T "RejectWithdraw" reject_withdraw_request empty (as_reject_withdraw T)
        srv.reject_withdraw

  -- `_FinanceService_RefundWithdraw_Handler`
  unfoldable pub refund_withdraw_handler : Handler
  unfolding handle
  refund_withdraw_handler srv =
      handle T "RefundWithdraw" refund_withdraw_request empty (as_refund_withdraw T)
        srv.refund_withdraw

  -- `_FinanceService_CreateTransfer_Handler`
  unfoldable pub create_transfer_handler : Handler
  unfolding handle
  create_transfer_handler srv =
      handle T "CreateTransfer" create_transfer_request create_transfer_response
        (as_create_transfer T) srv.create_transfer

  -- The methods of `FinanceService_ServiceDesc`
  unfoldable pub service_desc : List (String × Handler)
  unfolding create_deposit_handler create_withdraw_handler approve_withdraw_handler
      reject_withdraw_handler refund_withdraw_handler create_transfer_handler
  service_desc =
      ("CreateDeposit", create_deposit_handler)
      ∷ ("CreateWithdraw", create_withdraw_handler)
      ∷ ("ApproveWithdraw", approve_withdraw_handler)
      ∷ ("RejectWithdraw", reject_withdraw_handler)
      ∷ ("RefundWithdraw", refund_withdraw_handler)
      ∷ ("CreateTransfer", create_transfer_handler)
      ∷ []

  -- The paths under which gRPC serves a table: its `ServiceName` and the methods' names.
  abbrev pub by_path : List (String × Handler) → List (String × Handler)
  by_path [] = []
  by_path ((name, handler) ∷ methods) =
      ("/" ++ (service_name ++ ("/" ++ name)), handler) ∷ by_path methods

  -- `UnimplementedFinanceServiceServer`
  abbrev pub unimplemented : FinanceServiceServer T
  unimplemented = record {
    create_deposit = λ req. not_implemented "CreateDeposit";
    create_withdraw = λ req. not_implemented "CreateWithdraw";
    approve_withdraw = λ req. not_implemented "ApproveWithdraw";
    reject_withdraw = λ req. not_implemented "RejectWithdraw";
    refund_withdraw = λ req. not_implemented "RefundWithdraw";
    create_transfer = λ req. not_implemented "CreateTransfer";
  }
