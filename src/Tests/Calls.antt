-- ===== src/Tests/Calls.antt =====
-- The gRPC service over a network that delivers everything at once.
use aeternixth_go_lib.Prelude.{String, Option, none, some, ◌≡◌, refl, ap, lookup, codes, ℕ}
use aeternixth_go_lib.Finance.Grpc.Messages.{
  Kind, MessageOf, fresh_message, create_deposit_request, create_deposit_response,
  create_withdraw_request, create_withdraw_response, approve_withdraw_request,
  approve_withdraw_response, reject_withdraw_request, refund_withdraw_request,
  create_transfer_request, create_transfer_response, empty,
}
use aeternixth_go_lib.Finance.Grpc.{RpcError, Outcome, returned, panicked, FinanceServiceServer}
use aeternixth_go_lib.Finance.Grpc.Client
use aeternixth_go_lib.Finance.Grpc.Handlers.{
  Handler, service_desc, by_path, unimplemented, not_implemented,
}
use aeternixth_go_lib.Finance.Grpc.Laws.{Wire, IsDocumented, Answered, client-Answered}

abbrev broken : RpcError
broken = record { code = 13; message = "broken" }

decode_as :
    (k : Kind) → MessageOf ℕ k → (j : Kind) → MessageOf ℕ j → MessageOf ℕ j × Option RpcError
decode_as create_deposit_request m create_deposit_request out = (m, none)
decode_as create_deposit_response m create_deposit_response out = (m, none)
decode_as create_withdraw_request m create_withdraw_request out = (m, none)
decode_as create_withdraw_response m create_withdraw_response out = (m, none)
decode_as approve_withdraw_request m approve_withdraw_request out = (m, none)
decode_as approve_withdraw_response m approve_withdraw_response out = (m, none)
decode_as reject_withdraw_request m reject_withdraw_request out = (m, none)
decode_as refund_withdraw_request m refund_withdraw_request out = (m, none)
decode_as create_transfer_request m create_transfer_request out = (m, none)
decode_as create_transfer_response m create_transfer_response out = (m, none)
decode_as empty m empty out = (m, none)
decode_as _ m j out = (out, some broken)

decode_as_same : (k : Kind) (m out : MessageOf ℕ k) → decode_as k m k out ≡ (m, none)
unfolding decode_as
decode_as_same create_deposit_request m out = refl
decode_as_same create_deposit_response m out = refl
decode_as_same create_withdraw_request m out = refl
decode_as_same create_withdraw_response m out = refl
decode_as_same approve_withdraw_request m out = refl
decode_as_same approve_withdraw_response m out = refl
decode_as_same reject_withdraw_request m out = refl
decode_as_same refund_withdraw_request m out = refl
decode_as_same create_transfer_request m out = refl
decode_as_same create_transfer_response m out = refl
decode_as_same empty m out = refl

delivered : (j : Kind) → MessageOf ℕ j → Outcome ℕ → MessageOf ℕ j × Option RpcError
delivered j out (returned box (some err)) = (out, some err)
delivered j out (returned (some (k, some reply)) none) = decode_as k reply j out
delivered j out (returned (some (k, none)) none) = (out, some broken)
delivered j out (returned none none) = (out, some broken)
delivered j out panicked = (out, some broken)

abbrev transferring : FinanceServiceServer ℕ
transferring = record (unimplemented ℕ) {
  create_transfer = λ req. (some (record { txn_id = codes "t1"; status = 4 }), none);
}

abbrev served :
    (k : Kind)
    → MessageOf ℕ k
    → (j : Kind) → MessageOf ℕ j
    → Option (Handler ℕ)
    → MessageOf ℕ j × Option RpcError
served k m j out none = (out, some broken)
served k m j out (some handler) = delivered j out (handler transferring (decode_as k m) none)

abbrev sent :
    String
    → (k : Kind) → Option (MessageOf ℕ k)
    → (j : Kind) → MessageOf ℕ j
    → MessageOf ℕ j × Option RpcError
sent path k none j out = (out, some broken)
sent path k (some m) j out = served k m j out (lookup path (by_path ℕ (service_desc ℕ)))

abbrev wire : Wire ℕ
wire = record { connection = sent; decoder = decode_as; deliver = delivered }

wire-IsDocumented : IsDocumented ℕ wire transferring none
unfolding delivered
wire-IsDocumented = record {
  dispatches = λ path handler found k m j out. ap (served k m j out) found;
  decodes = decode_as_same;
  delivers = λ j out reply. decode_as_same j reply out;
  fails = λ j out box err. refl;
}

transferred :
    Client.create_transfer ℕ sent (some (fresh_message ℕ create_transfer_request))
    ≡ (some (record { txn_id = codes "t1"; status = 4 }), none)
unfolding Client.create_transfer service_desc lookup decode_as delivered
transferred = refl

refused :
    Client.create_deposit ℕ sent (some (fresh_message ℕ create_deposit_request))
    ≡ (none, some (record { code = 12; message = "method CreateDeposit not implemented" }))
unfolding Client.create_deposit service_desc lookup decode_as delivered not_implemented
refused = refl

client-Answered_example :
    Answered
      (transferring.create_deposit (some (fresh_message ℕ create_deposit_request)))
      (Client.create_deposit ℕ sent (some (fresh_message ℕ create_deposit_request)))
    × Answered
        (transferring.create_withdraw (some (fresh_message ℕ create_withdraw_request)))
        (Client.create_withdraw ℕ sent (some (fresh_message ℕ create_withdraw_request)))
    × Answered
        (transferring.approve_withdraw (some (fresh_message ℕ approve_withdraw_request)))
        (Client.approve_withdraw ℕ sent (some (fresh_message ℕ approve_withdraw_request)))
    × Answered
        (transferring.reject_withdraw (some (fresh_message ℕ reject_withdraw_request)))
        (Client.reject_withdraw ℕ sent (some (fresh_message ℕ reject_withdraw_request)))
    × Answered
        (transferring.refund_withdraw (some (fresh_message ℕ refund_withdraw_request)))
        (Client.refund_withdraw ℕ sent (some (fresh_message ℕ refund_withdraw_request)))
    × Answered
        (transferring.create_transfer (some (fresh_message ℕ create_transfer_request)))
        (Client.create_transfer ℕ sent (some (fresh_message ℕ create_transfer_request)))
client-Answered_example =
    client-Answered wire transferring none wire-IsDocumented tt
      (fresh_message ℕ create_deposit_request) (fresh_message ℕ create_withdraw_request)
      (fresh_message ℕ approve_withdraw_request) (fresh_message ℕ reject_withdraw_request)
      (fresh_message ℕ refund_withdraw_request) (fresh_message ℕ create_transfer_request)
