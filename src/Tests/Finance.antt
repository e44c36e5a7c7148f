-- ===== src/Tests/Finance.antt =====
-- The validators of finance.pb.validate.go at concrete requests.
use aeternixth_go_lib.Prelude.{
  ℕ, ◌≡◌, ◌↔◌, refl, List, [], ◌∷◌, Option, none, some, true, false, codes, map,
}
use mathlib.Core.Option
use aeternixth_go_lib.Finance.{
  CreateDepositRequest, CreateWithdrawRequest, CreateTransferRequest, is_defined,
}
use aeternixth_go_lib.Finance.Violations.{failure_text}
use aeternixth_go_lib.Finance.Rules.Laws.{no_methods, Agree}
use aeternixth_go_lib.Finance.Validate.{
  validate_create_deposit_request, validate_create_withdraw_request,
  validate_create_transfer_request,
}
use aeternixth_go_lib.Finance.Validate.Laws.{validate_iff}
use aeternixth_go_lib.Finance.Validate.Conforms.{
  DepositConforms, WithdrawConforms, TransferConforms,
}
use aeternixth_go_lib.Finance.Validate.Agreement.{validate-Agree}
use aeternixth_go_lib.Finance.Rules.Reports.{Reports}
use aeternixth_go_lib.Finance.Validate.Reports.{
  deposit_spec, withdraw_spec, transfer_spec, validate_all-Reports,
}
use aeternixth_go_lib.Finance.Patterns.{amount_pattern, uuid_pattern}
use aeternixth_go_lib.Prelude.Regex.{match_string}

abbrev user : List ℕ
user = codes "123e4567-e89b-12d3-a456-426614174000"

abbrev deposit : CreateDepositRequest ℕ
deposit = record {
  user_id = user;
  dest_type = 3;
  dest_id = codes "w1";
  amount_usd = codes "10.1234567";
  offer_rate = [];
  payment_amount = [];
  psp_config = none;
  idempotency_key = codes "k";
  mt5_login = 0;
  expires_at = some 5;
}

abbrev withdraw : CreateWithdrawRequest ℕ
withdraw = record {
  user_id = [];
  source_type = 1;
  source_id = [];
  amount_usd = codes "10";
  bid_rate = [];
  payout_amount = [];
  payment_currency = [];
  psp_config = none;
  idempotency_key = codes "k";
  mt5_login = 0;
  expires_at = none;
}

abbrev transfer : CreateTransferRequest
transfer = record {
  user_id = user;
  source_type = 1;
  source_id = codes "a";
  dest_type = 2;
  dest_id = codes "b";
  amount_usd = codes "10.5";
  idempotency_key = codes "k";
}

amounts :
    map
      (match_string amount_pattern)
      (codes "0" ∷ codes "10.123456" ∷ codes "10." ∷ codes "-1" ∷ codes "1.1234567" ∷ codes "" ∷ [])
    ≡ true ∷ true ∷ false ∷ false ∷ false ∷ false ∷ []
unfolding match_string amount_pattern
amounts = refl

transfer_passes : validate_create_transfer_request true (some transfer) ≡ none
unfolding validate_create_transfer_request uuid_pattern amount_pattern match_string is_defined
transfer_passes = refl

first_failure :
    Option.map failure_text (validate_create_deposit_request (λ t. no_methods) false (some deposit))
    ≡ some "invalid CreateDepositRequest.DestType: value must be one of the defined enum values"
unfolding validate_create_deposit_request uuid_pattern amount_pattern match_string is_defined
    failure_text
first_failure = refl

validate_iff_example :
    ((validate_create_deposit_request (λ (t : Option ℕ). no_methods) true (some deposit) ≡ none)
      ↔ DepositConforms (some deposit))
    × ((validate_create_withdraw_request (λ (t : Option ℕ). no_methods) true (some withdraw) ≡ none)
        ↔ WithdrawConforms (some withdraw))
    × ((validate_create_transfer_request true (some transfer) ≡ none)
        ↔ TransferConforms (some transfer))
validate_iff_example =
    validate_iff (λ t. no_methods) (λ t. refl) true (some deposit) (some withdraw) (some transfer)

validate-Agree_example :
    Agree "CreateDepositRequest"
      (validate_create_deposit_request (λ (t : Option ℕ). no_methods) true (some deposit))
      (validate_create_deposit_request (λ (t : Option ℕ). no_methods) false (some deposit))
    × Agree "CreateWithdrawRequest"
        (validate_create_withdraw_request (λ (t : Option ℕ). no_methods) true (some withdraw))
        (validate_create_withdraw_request (λ (t : Option ℕ). no_methods) false (some withdraw))
    × Agree "CreateTransferRequest"
        (validate_create_transfer_request true (some transfer))
        (validate_create_transfer_request false (some transfer))
validate-Agree_example =
    validate-Agree (λ t. no_methods) (λ t. refl) (some deposit) (some withdraw) (some transfer)

validate_all-Reports_example :
    Reports "CreateDepositRequest"
      (deposit_spec deposit)
      (validate_create_deposit_request (λ (t : Option ℕ). no_methods) true (some deposit))
    × Reports "CreateWithdrawRequest"
        (withdraw_spec withdraw)
        (validate_create_withdraw_request (λ (t : Option ℕ). no_methods) true (some withdraw))
    × Reports "CreateTransferRequest"
        (transfer_spec transfer)
        (validate_create_transfer_request true (some transfer))
validate_all-Reports_example =
    validate_all-Reports (λ t. no_methods) (λ t. refl) deposit withdraw transfer
