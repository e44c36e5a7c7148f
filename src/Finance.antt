-- ===== src/Finance.antt =====
-- proto/finance/v1: the messages of finance.pb.go. A text is a list of code points, an enum is the
-- 32-bit word of its number, and a pointer to a message is an option.
pub mod Violations
pub mod Rules
pub mod Patterns
pub mod Validate
pub mod Grpc
use aeternixth_go_lib.Prelude.{
  ℕ, String, List, [], ◌∷◌, Option, Bool, true, false, ◌==◌, if◌then◌else◌,
}

pub record PspConfig : Type 0 where
  pub provider_code : List ℕ
  pub method_type : List ℕ
  pub payment_currency : List ℕ
  pub metadata : List (List ℕ × List ℕ)

pub record CreateDepositRequest (Timestamp : Type 0) : Type 0 where
  pub user_id : List ℕ
  pub dest_type : ℕ
  pub dest_id : List ℕ
  pub amount_usd : List ℕ
  pub offer_rate : List ℕ
  pub payment_amount : List ℕ
  pub psp_config : Option PspConfig
  pub idempotency_key : List ℕ
  pub mt5_login : ℕ
  pub expires_at : Option Timestamp

pub record CreateDepositResponse : Type 0 where
  pub txn_id : List ℕ
  pub reference_id : List ℕ
  pub qr_code_base64 : List ℕ
  pub payment_url : List ℕ
  pub psp_transaction_id : List ℕ
  pub status : ℕ

pub record CreateWithdrawRequest (Timestamp : Type 0) : Type 0 where
  pub user_id : List ℕ
  pub source_type : ℕ
  pub source_id : List ℕ
  pub amount_usd : List ℕ
  pub bid_rate : List ℕ
  pub payout_amount : List ℕ
  pub payment_currency : List ℕ
  pub psp_config : Option PspConfig
  pub idempotency_key : List ℕ
  pub mt5_login : ℕ
  pub expires_at : Option Timestamp

pub record CreateWithdrawResponse : Type 0 where
  pub txn_id : List ℕ
  pub reference_id : List ℕ
  pub status : ℕ

pub record ApproveWithdrawRequest : Type 0 where
  pub txn_id : List ℕ
  pub admin_id : List ℕ

pub record ApproveWithdrawResponse : Type 0 where
  pub status : ℕ
  pub psp_transaction_id : List ℕ

pub record RejectWithdrawRequest : Type 0 where
  pub txn_id : List ℕ
  pub admin_id : List ℕ
  pub reason : List ℕ

pub record RefundWithdrawRequest : Type 0 where
  pub txn_id : List ℕ
  pub admin_id : List ℕ
  pub reason : List ℕ

pub record CreateTransferRequest : Type 0 where
  pub user_id : List ℕ
  pub source_type : ℕ
  pub source_id : List ℕ
  pub dest_type : ℕ
  pub dest_id : List ℕ
  pub amount_usd : List ℕ
  pub idempotency_key : List ℕ

pub record CreateTransferResponse : Type 0 where
  pub txn_id : List ℕ
  pub status : ℕ

-- `AccountType_name`
abbrev pub account_type_name : List (ℕ × String)
account_type_name = (0, "ACCOUNT_TYPE_UNSPECIFIED") ∷ (1, "TRADING") ∷ (2, "WALLET") ∷ []

-- `_, ok := names[number]`
unfoldable pub is_defined : ℕ → List (ℕ × String) → Bool
is_defined number [] = false
is_defined number ((n, name) ∷ names) = if n == number then true else is_defined number names
