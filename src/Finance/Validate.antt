-- ===== src/Finance/Validate.antt =====
-- proto/finance/v1/finance.pb.validate.go: the `validate` methods. `validate_with false` is `Validate`,
-- `validate_with true` is `ValidateAll`.
pub mod Conforms
pub mod Laws
pub mod Agreement
pub mod Reports
use aeternixth_go_lib.Prelude.{
  ℕ, String, List, [], ◌∷◌, Bool, true, false, not, Option, none, some, if◌then◌else◌, ltb, length,
}
use aeternixth_go_lib.Prelude.Regex.{match_string}
use aeternixth_go_lib.Finance.{
  PspConfig, CreateDepositRequest, CreateDepositResponse, CreateWithdrawRequest,
  CreateWithdrawResponse, ApproveWithdrawRequest, ApproveWithdrawResponse, RejectWithdrawRequest,
  RefundWithdrawRequest, CreateTransferRequest, CreateTransferResponse, account_type_name,
  is_defined,
}
use aeternixth_go_lib.Finance.Violations.{Violation, text, Cause, uncaused, caused, end}
use aeternixth_go_lib.Finance.Rules.{run_rules, when_broken, Methods, embedded}
use aeternixth_go_lib.Finance.Patterns.{amount_pattern, uuid_pattern}

-- `_validateUuid`
unfoldable pub validate_uuid : List ℕ → Option Violation
validate_uuid uuid =
    if match_string uuid_pattern uuid then none else some (text "invalid uuid format")

-- The four rules that the requests share, each for a field of a message.
abbrev pub uuid_failure : String → Option Violation → Option Violation
uuid_failure message none = none
uuid_failure message (some failure) =
    when_broken true message "UserId" "value must be a valid UUID" (caused failure)

abbrev pub enum_rule : String → String → ℕ → Option Violation
enum_rule message field number =
    when_broken (not (is_defined number account_type_name)) message field
      "value must be one of the defined enum values" uncaused

abbrev pub length_rule : String → String → List ℕ → Option Violation
length_rule message field s =
    when_broken (ltb (length s) 1) message field "value length must be at least 1 runes" uncaused

abbrev pub amount_rule : String → List ℕ → Option Violation
amount_rule message s =
    when_broken (not (match_string amount_pattern s)) message "AmountUsd"
      "value does not match regex pattern \"^[0-9]+(\\\\.[0-9]{1,6})?$\"" uncaused

abbrev pub is_nil : Option PspConfig → Bool
is_nil none = true
is_nil (some psp) = false

abbrev pub required_rule : String → Option PspConfig → Option Violation
required_rule message psp =
    when_broken (is_nil psp) message "PspConfig" "value is required" uncaused

-- A message without rules
abbrev pub unruled : {A : Type 0} → Bool → String → Option A → Option Violation
unruled all message none = none
unruled all message (some m) = run_rules all message [] end

unfoldable pub validate_psp_config : Bool → Option PspConfig → Option Violation
unfolding run_rules
validate_psp_config all m = unruled all "PspConfig" m

-- `PspConfig` has both methods.
abbrev pub psp_methods : Option PspConfig → Methods
psp_methods psp = record {
  validate_all = some (validate_psp_config true psp);
  validate = some (validate_psp_config false psp);
}

module _ {Timestamp : Type 0} (methods : Option Timestamp → Methods) where
  abbrev pub deposit_rules : Bool → CreateDepositRequest Timestamp → List (Option Violation)
  deposit_rules all m =
      let message : String = "CreateDepositRequest" in
      uuid_failure message (validate_uuid m.user_id)
      ∷ enum_rule message "DestType" m.dest_type
      ∷ length_rule message "DestId" m.dest_id
      ∷ amount_rule message m.amount_usd
      ∷ required_rule message m.psp_config
      ∷ embedded all message "PspConfig" (psp_methods m.psp_config)
      ∷ length_rule message "IdempotencyKey" m.idempotency_key
      ∷ embedded all message "ExpiresAt" (methods m.expires_at)
      ∷ []

  unfoldable pub validate_create_deposit_request :
      Bool → Option (CreateDepositRequest Timestamp) → Option Violation
  unfolding run_rules embedded validate_psp_config validate_uuid
  validate_create_deposit_request all none = none
  validate_create_deposit_request all (some m) =
      run_rules all "CreateDepositRequest" (deposit_rules all m) end

  abbrev pub withdraw_rules : Bool → CreateWithdrawRequest Timestamp → List (Option Violation)
  withdraw_rules all m =
      let message : String = "CreateWithdrawRequest" in
      uuid_failure message (validate_uuid m.user_id)
      ∷ enum_rule message "SourceType" m.source_type
      ∷ length_rule message "SourceId" m.source_id
      ∷ amount_rule message m.amount_usd
      ∷ required_rule message m.psp_config
      ∷ embedded all message "PspConfig" (psp_methods m.psp_config)
      ∷ length_rule message "IdempotencyKey" m.idempotency_key
      ∷ embedded all message "ExpiresAt" (methods m.expires_at)
      ∷ []

  unfoldable pub validate_create_withdraw_request :
      Bool → Option (CreateWithdrawRequest Timestamp) → Option Violation
  unfolding run_rules embedded validate_psp_config validate_uuid
  validate_create_withdraw_request all none = none
  validate_create_withdraw_request all (some m) =
      run_rules all "CreateWithdrawRequest" (withdraw_rules all m) end

abbrev pub transfer_rules : CreateTransferRequest → List (Option Violation)
transfer_rules m =
    let message : String = "CreateTransferRequest" in
    uuid_failure message (validate_uuid m.user_id)
    ∷ enum_rule message "SourceType" m.source_type
    ∷ length_rule message "SourceId" m.source_id
    ∷ enum_rule message "DestType" m.dest_type
    ∷ length_rule message "DestId" m.dest_id
    ∷ amount_rule message m.amount_usd
    ∷ length_rule message "IdempotencyKey" m.idempotency_key
    ∷ []

unfoldable pub validate_create_transfer_request :
    Bool → Option CreateTransferRequest → Option Violation
unfolding run_rules validate_uuid
validate_create_transfer_request all none = none
validate_create_transfer_request all (some m) =
    run_rules all "CreateTransferRequest" (transfer_rules m) end

-- The messages without rules, in the order of the file.
unfoldable pub validate_create_deposit_response :
    Bool → Option CreateDepositResponse → Option Violation
unfolding run_rules
validate_create_deposit_response all m = unruled all "CreateDepositResponse" m

unfoldable pub validate_create_withdraw_response :
    Bool → Option CreateWithdrawResponse → Option Violation
unfolding run_rules
validate_create_withdraw_response all m = unruled all "CreateWithdrawResponse" m

unfoldable pub validate_approve_withdraw_request :
    Bool → Option ApproveWithdrawRequest → Option Violation
unfolding run_rules
validate_approve_withdraw_request all m = unruled all "ApproveWithdrawRequest" m

unfoldable pub validate_approve_withdraw_response :
    Bool → Option ApproveWithdrawResponse → Option Violation
unfolding run_rules
validate_approve_withdraw_response all m = unruled all "ApproveWithdrawResponse" m

unfoldable pub validate_reject_withdraw_request :
    Bool → Option RejectWithdrawRequest → Option Violation
unfolding run_rules
validate_reject_withdraw_request all m = unruled all "RejectWithdrawRequest" m

unfoldable pub validate_refund_withdraw_request :
    Bool → Option RefundWithdrawRequest → Option Violation
unfolding run_rules
validate_refund_withdraw_request all m = unruled all "RefundWithdrawRequest" m

unfoldable pub validate_create_transfer_response :
    Bool → Option CreateTransferResponse → Option Violation
unfolding run_rules
validate_create_transfer_response all m = unruled all "CreateTransferResponse" m
