-- ===== src/Finance/Grpc/Client.antt =====
-- proto/finance/v1/finance_grpc.pb.go: the methods of the client.
use aeternixth_go_lib.Finance.Grpc.Messages.{
  create_deposit_request, create_deposit_response, create_withdraw_request,
  create_withdraw_response, approve_withdraw_request, approve_withdraw_response,
  reject_withdraw_request, refund_withdraw_request, create_transfer_request,
  create_transfer_response, empty,
}
use aeternixth_go_lib.Finance.Grpc.{Connection, Method, invoke}

module _ (T : Type 0) (cc : Connection T) where
  unfoldable pub create_deposit : Method T create_deposit_request create_deposit_response
  create_deposit = invoke T cc "CreateDeposit" create_deposit_request create_deposit_response

  unfoldable pub create_withdraw : Method T create_withdraw_request create_withdraw_response
  create_withdraw = invoke T cc "CreateWithdraw" create_withdraw_request create_withdraw_response

  unfoldable pub approve_withdraw : Method T approve_withdraw_request approve_withdraw_response
  approve_withdraw =
      invoke T cc "ApproveWithdraw" approve_withdraw_request approve_withdraw_response

  unfoldable pub reject_withdraw : Method T reject_withdraw_request empty
  reject_withdraw = invoke T cc "RejectWithdraw" reject_withdraw_request empty

  unfoldable pub refund_withdraw : Method T refund_withdraw_request empty
  refund_withdraw = invoke T cc "RefundWithdraw" refund_withdraw_request empty

  unfoldable pub create_transfer : Method T create_transfer_request create_transfer_response
  create_transfer = invoke T cc "CreateTransfer" create_transfer_request create_transfer_response
