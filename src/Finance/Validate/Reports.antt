-- ===== src/Finance/Validate/Reports.antt =====
-- What `ValidateAll` reports: the broken rules of finance.proto, in the order of the message's checks.
use aeternixth_go_lib.Prelude.{
  ℕ, ◌≤◌, String, List, [], ◌∷◌, not, Option, none, some, ◌≡◌, ◌≢◌, refl, ◌↔◌, true, ltb, length,
  sym,
}
use mathlib.Core.Path.{subst}
use aeternixth_go_lib.Prelude.Regex.{match_string}
use aeternixth_go_lib.Finance.{
  PspConfig, CreateDepositRequest, CreateWithdrawRequest, CreateTransferRequest, account_type_name,
  is_defined,
}
use aeternixth_go_lib.Finance.Violations.{Violation, uncaused}
use aeternixth_go_lib.Finance.Rules.{Methods}
use aeternixth_go_lib.Finance.Rules.Laws.{no_methods}
use aeternixth_go_lib.Finance.Rules.Reports.{
  Rule, Reports, Fits, when_broken-Fits, run_rules-Reports,
}
use aeternixth_go_lib.Finance.Patterns.{amount_pattern}
use aeternixth_go_lib.Finance.Patterns.Laws.{IsAmount, IsUuid}
use aeternixth_go_lib.Finance.Validate.{
  validate_uuid, uuid_failure, enum_rule, length_rule, amount_rule, required_rule, is_nil,
  deposit_rules, withdraw_rules, transfer_rules, validate_create_deposit_request,
  validate_create_withdraw_request, validate_create_transfer_request,
}
use aeternixth_go_lib.Finance.Validate.Conforms.{
  uuid_failure_iff, enum_rule_iff, length_rule_iff, amount_rule_iff, required_rule_iff,
  embedded_psp,
}
use aeternixth_go_lib.Finance.Validate.Laws.{timestamp_rule}

uuid_failure-Fits :
    (message : String) (o : Option Violation) (P : Type 0)
    → (uuid_failure message o ≡ none) ↔ P
    → Fits "UserId" P (uuid_failure message o)
uuid_failure-Fits message none P (there, back) = there refl
uuid_failure-Fits message (some failure) P (there, back) = (refl, λ p. cc (back p))

module _ (message : String) where
  user_rule-Fits : (s : List ℕ) → Fits "UserId" (IsUuid s) (uuid_failure message (validate_uuid s))
  user_rule-Fits s =
      uuid_failure-Fits message (validate_uuid s) (IsUuid s) (uuid_failure_iff message s)

  enum_rule-Fits : (field : String) (n : ℕ) → Fits field (n ≤ 2) (enum_rule message field n)
  enum_rule-Fits field n =
      when_broken-Fits (not (is_defined n account_type_name)) message field _ uncaused (n ≤ 2)
        (enum_rule_iff message field n)

  length_rule-Fits :
      (field : String) (s : List ℕ) → Fits field (s ≢ []) (length_rule message field s)
  length_rule-Fits field s =
      when_broken-Fits (ltb (length s) 1) message field _ uncaused (s ≢ [])
        (length_rule_iff message field s)

  amount_rule-Fits : (s : List ℕ) → Fits "AmountUsd" (IsAmount s) (amount_rule message s)
  amount_rule-Fits s =
      when_broken-Fits (not (match_string amount_pattern s)) message "AmountUsd" _ uncaused
        (IsAmount s) (amount_rule_iff message s)

  required_rule-Fits :
      (psp : Option PspConfig) → Fits "PspConfig" (psp ≢ none) (required_rule message psp)
  required_rule-Fits psp =
      when_broken-Fits (is_nil psp) message "PspConfig" _ uncaused (psp ≢ none)
        (required_rule_iff message psp)

none-Fits : (field : String) (o : Option Violation) → o ≡ none → Fits field Unit o
none-Fits field o e = subst (Fits field Unit) (sym e) tt

-- The checks of the three messages with their rules; an embedded message has none to break.
abbrev pub transfer_spec : CreateTransferRequest → List Rule
transfer_spec m =
    ("UserId", IsUuid m.user_id)
    ∷ ("SourceType", m.source_type ≤ 2)
    ∷ ("SourceId", m.source_id ≢ [])
    ∷ ("DestType", m.dest_type ≤ 2)
    ∷ ("DestId", m.dest_id ≢ [])
    ∷ ("AmountUsd", IsAmount m.amount_usd)
    ∷ ("IdempotencyKey", m.idempotency_key ≢ [])
    ∷ []

module _ {T : Type 0} where
  abbrev pub deposit_spec : CreateDepositRequest T → List Rule
  deposit_spec m =
      ("UserId", IsUuid m.user_id)
      ∷ ("DestType", m.dest_type ≤ 2)
      ∷ ("DestId", m.dest_id ≢ [])
      ∷ ("AmountUsd", IsAmount m.amount_usd)
      ∷ ("PspConfig", m.psp_config ≢ none)
      ∷ ("PspConfig", Unit)
      ∷ ("IdempotencyKey", m.idempotency_key ≢ [])
      ∷ ("ExpiresAt", Unit)
      ∷ []

  abbrev pub withdraw_spec : CreateWithdrawRequest T → List Rule
  withdraw_spec m =
      ("UserId", IsUuid m.user_id)
      ∷ ("SourceType", m.source_type ≤ 2)
      ∷ ("SourceId", m.source_id ≢ [])
      ∷ ("AmountUsd", IsAmount m.amount_usd)
      ∷ ("PspConfig", m.psp_config ≢ none)
      ∷ ("PspConfig", Unit)
      ∷ ("IdempotencyKey", m.idempotency_key ≢ [])
      ∷ ("ExpiresAt", Unit)
      ∷ []

transfer_rules-Reports :
    (m : CreateTransferRequest)
    → Reports "CreateTransferRequest"
        (transfer_spec m)
        (validate_create_transfer_request true (some m))
unfolding validate_create_transfer_request
transfer_rules-Reports m =
    let name : String = "CreateTransferRequest" in
    run_rules-Reports name (transfer_rules m) (transfer_spec m) (
      user_rule-Fits name m.user_id,
      (
        enum_rule-Fits name "SourceType" m.source_type,
        (
          length_rule-Fits name "SourceId" m.source_id,
          (
            enum_rule-Fits name "DestType" m.dest_type,
            (
              length_rule-Fits name "DestId" m.dest_id,
              (
                amount_rule-Fits name m.amount_usd,
                (length_rule-Fits name "IdempotencyKey" m.idempotency_key, tt),
              ),
            ),
          ),
        ),
      ),
    )

module _ {T : Type 0} (methods : Option T → Methods)
    (unmethodical : (t : Option T) → methods t ≡ no_methods) where
  deposit_rules-Reports :
      (m : CreateDepositRequest T)
      → Reports "CreateDepositRequest"
          (deposit_spec m)
          (validate_create_deposit_request methods true (some m))
  unfolding validate_create_deposit_request
  deposit_rules-Reports m =
      let name : String = "CreateDepositRequest" in
      run_rules-Reports name (deposit_rules methods true m) (deposit_spec m) (
        user_rule-Fits name m.user_id,
        (
          enum_rule-Fits name "DestType" m.dest_type,
          (
            length_rule-Fits name "DestId" m.dest_id,
            (
              amount_rule-Fits name m.amount_usd,
              (
                required_rule-Fits name m.psp_config,
                (
                  none-Fits "PspConfig" _ (embedded_psp true name m.psp_config),
                  (
                    length_rule-Fits name "IdempotencyKey" m.idempotency_key,
                    (
                      none-Fits "ExpiresAt" _
                          (timestamp_rule methods unmethodical true name m.expires_at),
                      tt,
                    ),
                  ),
                ),
              ),
            ),
          ),
        ),
      )

  withdraw_rules-Reports :
      (m : CreateWithdrawRequest T)
      → Reports "CreateWithdrawRequest"
          (withdraw_spec m)
          (validate_create_withdraw_request methods true (some m))
  unfolding validate_create_withdraw_request
  withdraw_rules-Reports m =
      let name : String = "CreateWithdrawRequest" in
      run_rules-Reports name (withdraw_rules methods true m) (withdraw_spec m) (
        user_rule-Fits name m.user_id,
        (
          enum_rule-Fits name "SourceType" m.source_type,
          (
            length_rule-Fits name "SourceId" m.source_id,
            (
              amount_rule-Fits name m.amount_usd,
              (
                required_rule-Fits name m.psp_config,
                (
                  none-Fits "PspConfig" _ (embedded_psp true name m.psp_config),
                  (
                    length_rule-Fits name "IdempotencyKey" m.idempotency_key,
                    (
                      none-Fits "ExpiresAt" _
                          (timestamp_rule methods unmethodical true name m.expires_at),
                      tt,
                    ),
                  ),
                ),
              ),
            ),
          ),
        ),
      )

  -- Where timestamps have no validation of their own: of a request that is not nil ValidateAll
  -- reports no error if it keeps every rule of finance.proto, and else a list, under the message's
  -- name, that names exactly the fields of the broken rules, in the order of the checks.
  pub validate_all-Reports :
      (deposit : CreateDepositRequest T) (withdraw : CreateWithdrawRequest T)
      (transfer : CreateTransferRequest)
      → Reports "CreateDepositRequest"
          (deposit_spec deposit)
          (validate_create_deposit_request methods true (some deposit))
        × Reports "CreateWithdrawRequest"
            (withdraw_spec withdraw)
            (validate_create_withdraw_request methods true (some withdraw))
        × Reports "CreateTransferRequest"
            (transfer_spec transfer)
            (validate_create_transfer_request true (some transfer))
  validate_all-Reports deposit withdraw transfer = (
    deposit_rules-Reports deposit,
    withdraw_rules-Reports withdraw,
    transfer_rules-Reports transfer,
  )
