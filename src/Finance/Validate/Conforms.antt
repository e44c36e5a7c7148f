-- ===== src/Finance/Validate/Conforms.antt =====
-- The rules of finance.proto, and what each check of a `validate` method makes of its rule.
use aeternixth_go_lib.Prelude.{
  ℕ, ◌≤◌, String, List, [], ◌∷◌, Bool, true, false, Option, none, some, ◌≡◌, ◌≢◌, refl, ◌↔◌, arith,
  not, if◌then◌else◌,
}
use aeternixth_go_lib.Prelude.Regex.{match_string}
use aeternixth_go_lib.Finance.{
  PspConfig, CreateDepositRequest, CreateWithdrawRequest, CreateTransferRequest, is_defined,
}
use aeternixth_go_lib.Finance.Violations.{Violation, text, uncaused}
use aeternixth_go_lib.Finance.Rules.{when_broken, embedded}
use aeternixth_go_lib.Finance.Patterns.{amount_pattern, uuid_pattern}
use aeternixth_go_lib.Finance.Patterns.Laws.{IsAmount, IsUuid, amount_pattern_iff, uuid_pattern_iff}
use aeternixth_go_lib.Finance.Validate.{
  validate_uuid, uuid_failure, enum_rule, length_rule, amount_rule, required_rule,
  validate_psp_config, psp_methods,
}

-- The rules of finance.proto for the three requests that have any.
abbrev pub DepositConforms : {T : Type 0} → Option (CreateDepositRequest T) → Type 0
DepositConforms none = Unit
DepositConforms (some m) =
    IsUuid m.user_id
    × (m.dest_type ≤ 2)
    × (m.dest_id ≢ [])
    × IsAmount m.amount_usd
    × (m.psp_config ≢ none)
    × (m.idempotency_key ≢ [])

abbrev pub WithdrawConforms : {T : Type 0} → Option (CreateWithdrawRequest T) → Type 0
WithdrawConforms none = Unit
WithdrawConforms (some m) =
    IsUuid m.user_id
    × (m.source_type ≤ 2)
    × (m.source_id ≢ [])
    × IsAmount m.amount_usd
    × (m.psp_config ≢ none)
    × (m.idempotency_key ≢ [])

abbrev pub TransferConforms : Option CreateTransferRequest → Type 0
TransferConforms none = Unit
TransferConforms (some m) =
    IsUuid m.user_id
    × (m.source_type ≤ 2)
    × (m.source_id ≢ [])
    × (m.dest_type ≤ 2)
    × (m.dest_id ≢ [])
    × IsAmount m.amount_usd
    × (m.idempotency_key ≢ [])

uuid_test :
    (message : String) (b : Bool) (t : Violation)
    → (uuid_failure message (if b then none else some t) ≡ none) ↔ (b ≡ true)
uuid_test message true t = (λ _. refl, λ _. refl)
uuid_test message false t = (λ h. cc, λ h. cc)

abbrev pub through : {A B C : Type 0} → A ↔ B → B ↔ C → A ↔ C
through f g = (λ a. g.0 (f.0 a), λ c. f.1 (g.1 c))

pub uuid_failure_iff :
    (message : String) (s : List ℕ) → (uuid_failure message (validate_uuid s) ≡ none) ↔ IsUuid s
unfolding validate_uuid
uuid_failure_iff message s =
    through (uuid_test message (match_string uuid_pattern s) (text "invalid uuid format"))
      (uuid_pattern_iff s)

kept_test :
    (b : Bool) (message field reason : String)
    → (when_broken (not b) message field reason uncaused ≡ none) ↔ (b ≡ true)
kept_test true message field reason = (λ _. refl, λ _. refl)
kept_test false message field reason = (λ h. cc, λ h. cc)

pub enum_rule_iff : (message field : String) (n : ℕ) → (enum_rule message field n ≡ none) ↔ (n ≤ 2)
unfolding is_defined
enum_rule_iff message field n = ground arith

pub length_rule_iff :
    (message field : String) (s : List ℕ) → (length_rule message field s ≡ none) ↔ (s ≢ [])
length_rule_iff message field [] = (λ h. cc, λ h. absurd (h refl))
length_rule_iff message field (c ∷ s) = ground arith

pub amount_rule_iff : (message : String) (s : List ℕ) → (amount_rule message s ≡ none) ↔ IsAmount s
amount_rule_iff message s =
    through (kept_test (match_string amount_pattern s) message "AmountUsd" _) (amount_pattern_iff s)

pub required_rule_iff :
    (message : String) (psp : Option PspConfig) → (required_rule message psp ≡ none) ↔ (psp ≢ none)
required_rule_iff message none = (λ h. cc, λ h. absurd (h refl))
required_rule_iff message (some psp) = (λ _ h. cc, λ _. refl)

pub embedded_psp :
    (all : Bool) (message : String) (psp : Option PspConfig)
    → embedded all message "PspConfig" (psp_methods psp) ≡ none
unfolding embedded validate_psp_config
embedded_psp true message none = refl
embedded_psp true message (some psp) = refl
embedded_psp false message none = refl
embedded_psp false message (some psp) = refl
