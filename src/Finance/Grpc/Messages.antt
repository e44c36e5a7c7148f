-- ===== src/Finance/Grpc/Messages.antt =====
-- proto/finance/v1/finance_grpc.pb.go: the messages of the service as values of an interface, the
-- new messages, and the type assertions of the handlers.
use aeternixth_go_lib.Prelude.{[], Option, none, some}
use aeternixth_go_lib.Finance.{
  CreateDepositRequest, CreateDepositResponse, CreateWithdrawRequest, CreateWithdrawResponse,
  ApproveWithdrawRequest, ApproveWithdrawResponse, RejectWithdrawRequest, RefundWithdrawRequest,
  CreateTransferRequest, CreateTransferResponse,
}

-- The types of the messages that the service exchanges.
pub data Kind : Type 0 where
  create_deposit_request create_deposit_response create_withdraw_request create_withdraw_response
        approve_withdraw_request approve_withdraw_response reject_withdraw_request
        refund_withdraw_request create_transfer_request create_transfer_response empty :
      Kind

module _ (T : Type 0) where
  abbrev pub MessageOf : Kind → Type 0
  MessageOf create_deposit_request = CreateDepositRequest T
  MessageOf create_deposit_response = CreateDepositResponse
  MessageOf create_withdraw_request = CreateWithdrawRequest T
  MessageOf create_withdraw_response = CreateWithdrawResponse
  MessageOf approve_withdraw_request = ApproveWithdrawRequest
  MessageOf approve_withdraw_response = ApproveWithdrawResponse
  MessageOf reject_withdraw_request = RejectWithdrawRequest
  MessageOf refund_withdraw_request = RefundWithdrawRequest
  MessageOf create_transfer_request = CreateTransferRequest
  MessageOf create_transfer_response = CreateTransferResponse
  MessageOf empty = Unit

  -- An `interface{}` that holds nothing, or a pointer to a message.
  abbrev pub Box : Type 0
  Box = Option ((k : Kind) × Option (MessageOf k))

  -- `new`
  abbrev pub fresh_message : (k : Kind) → MessageOf k
  fresh_message create_deposit_request = record {
    user_id = [];
    dest_type = 0;
    dest_id = [];
    amount_usd = [];
    offer_rate = [];
    payment_amount = [];
    psp_config = none;
    idempotency_key = [];
    mt5_login = 0;
    expires_at = none;
  }
  fresh_message create_deposit_response = record {
    txn_id = [];
    reference_id = [];
    qr_code_base64 = [];
    payment_url = [];
    psp_transaction_id = [];
    status = 0;
  }
  fresh_message create_withdraw_request = record {
    user_id = [];
    source_type = 0;
    source_id = [];
    amount_usd = [];
    bid_rate = [];
    payout_amount = [];
    payment_currency = [];
    psp_config = none;
    idempotency_key = [];
    mt5_login = 0;
    expires_at = none;
  }
  fresh_message create_withdraw_response = record { txn_id = []; reference_id = []; status = 0 }
  fresh_message approve_withdraw_request = record { txn_id = []; admin_id = [] }
  fresh_message approve_withdraw_response = record { status = 0; psp_transaction_id = [] }
  fresh_message reject_withdraw_request = record { txn_id = []; admin_id = []; reason = [] }
  fresh_message refund_withdraw_request = record { txn_id = []; admin_id = []; reason = [] }
  fresh_message create_transfer_request = record {
    user_id = [];
    source_type = 0;
    source_id = [];
    dest_type = 0;
    dest_id = [];
    amount_usd = [];
    idempotency_key = [];
  }
  fresh_message create_transfer_response = record { txn_id = []; status = 0 }
  fresh_message empty = tt

  -- `req.(*CreateDepositRequest)`, and the others; none where the assertion fails.
  abbrev pub as_create_deposit : Box → Option (Option (MessageOf create_deposit_request))
  as_create_deposit (some (create_deposit_request, m)) = some m
  as_create_deposit _ = none

  abbrev pub as_create_withdraw : Box → Option (Option (MessageOf create_withdraw_request))
  as_create_withdraw (some (create_withdraw_request, m)) = some m
  as_create_withdraw _ = none

  abbrev pub as_approve_withdraw : Box → Option (Option (MessageOf approve_withdraw_request))
  as_approve_withdraw (some (approve_withdraw_request, m)) = some m
  as_approve_withdraw _ = none

  abbrev pub as_reject_withdraw : Box → Option (Option (MessageOf reject_withdraw_request))
  as_reject_withdraw (some (reject_withdraw_request, m)) = some m
  as_reject_withdraw _ = none

  abbrev pub as_refund_withdraw : Box → Option (Option (MessageOf refund_withdraw_request))
  as_refund_withdraw (some (refund_withdraw_request, m)) = some m
  as_refund_withdraw _ = none

  abbrev pub as_create_transfer : Box → Option (Option (MessageOf create_transfer_request))
  as_create_transfer (some (create_transfer_request, m)) = some m
  as_create_transfer _ = none
