-- ===== src/Finance/Validate/Laws.antt =====
-- Which requests the validators accept.
use aeternixth_go_lib.Prelude.{String, Bool, Option, none, some, ◌≡◌, refl, ◌↔◌}
use aeternixth_go_lib.Finance.{CreateDepositRequest, CreateWithdrawRequest, CreateTransferRequest}
use aeternixth_go_lib.Finance.Rules.{Methods, embedded}
use aeternixth_go_lib.Finance.Rules.Laws.{Kept, run_rules_iff, no_methods, embedded-none}
use aeternixth_go_lib.Finance.Validate.{
  deposit_rules, withdraw_rules, transfer_rules, validate_create_deposit_request,
  validate_create_withdraw_request, validate_create_transfer_request,
}
use aeternixth_go_lib.Finance.Validate.Conforms.{
  DepositConforms, WithdrawConforms, TransferConforms, through, uuid_failure_iff, enum_rule_iff,
  length_rule_iff, amount_rule_iff, required_rule_iff, embedded_psp,
}

transfer_iff : (m : CreateTransferRequest) → Kept (transfer_rules m) ↔ TransferConforms (some m)
transfer_iff m =
    let name : String = "CreateTransferRequest" in
    let (user_there, user_back) = uuid_failure_iff name m.user_id in
    let (from_there, from_back) = enum_rule_iff name "SourceType" m.source_type in
    let (source_there, source_back) = length_rule_iff name "SourceId" m.source_id in
    let (kind_there, kind_back) = enum_rule_iff name "DestType" m.dest_type in
    let (dest_there, dest_back) = length_rule_iff name "DestId" m.dest_id in
    let (amount_there, amount_back) = amount_rule_iff name m.amount_usd in
    let (key_there, key_back) = length_rule_iff name "IdempotencyKey" m.idempotency_key in
    (
      λ (user, (from, (source, (kind, (dest, (amount, (key, _))))))). (
        user_there user,
        from_there from,
        source_there source,
        kind_there kind,
        dest_there dest,
        amount_there amount,
        key_there key,
      ),
      λ (user, from, source, kind, dest, amount, key). (
        user_back user,
        (
          from_back from,
          (
            source_back source,
            (kind_back kind, (dest_back dest, (amount_back amount, (key_back key, tt)))),
          ),
        ),
      ),
    )

module _ {T : Type 0} (methods : Option T → Methods)
    (unmethodical : (t : Option T) → methods t ≡ no_methods) where
  pub timestamp_rule :
      (all : Bool) (message : String) (t : Option T)
      → embedded all message "ExpiresAt" (methods t) ≡ none
  timestamp_rule all message t = rw (unmethodical t) (embedded-none all message "ExpiresAt")

  deposit_iff :
      (all : Bool) (m : CreateDepositRequest T)
      → Kept (deposit_rules methods all m) ↔ DepositConforms (some m)
  deposit_iff all m =
      let name : String = "CreateDepositRequest" in
      let (user_there, user_back) = uuid_failure_iff name m.user_id in
      let (kind_there, kind_back) = enum_rule_iff name "DestType" m.dest_type in
      let (dest_there, dest_back) = length_rule_iff name "DestId" m.dest_id in
      let (amount_there, amount_back) = amount_rule_iff name m.amount_usd in
      let (psp_there, psp_back) = required_rule_iff name m.psp_config in
      let (key_there, key_back) = length_rule_iff name "IdempotencyKey" m.idempotency_key in
      (
        λ (user, (kind, (dest, (amount, (psp, (_, (key, (_, _)))))))). (
          user_there user,
          kind_there kind,
          dest_there dest,
          amount_there amount,
          psp_there psp,
          key_there key,
        ),
        λ (user, kind, dest, amount, psp, key). (
          user_back user,
          (
            kind_back kind,
            (
              dest_back dest,
              (
                amount_back amount,
                (
                  psp_back psp,
                  (
                    embedded_psp all name m.psp_config,
                    (key_back key, (timestamp_rule all name m.expires_at, tt)),
                  ),
                ),
              ),
            ),
          ),
        ),
      )

  withdraw_iff :
      (all : Bool) (m : CreateWithdrawRequest T)
      → Kept (withdraw_rules methods all m) ↔ WithdrawConforms (some m)
  withdraw_iff all m =
      let name : String = "CreateWithdrawRequest" in
      let (user_there, user_back) = uuid_failure_iff name m.user_id in
      let (kind_there, kind_back) = enum_rule_iff name "SourceType" m.source_type in
      let (source_there, source_back) = length_rule_iff name "SourceId" m.source_id in
      let (amount_there, amount_back) = amount_rule_iff name m.amount_usd in
      let (psp_there, psp_back) = required_rule_iff name m.psp_config in
      let (key_there, key_back) = length_rule_iff name "IdempotencyKey" m.idempotency_key in
      (
        λ (user, (kind, (source, (amount, (psp, (_, (key, (_, _)))))))). (
          user_there user,
          kind_there kind,
          source_there source,
          amount_there amount,
          psp_there psp,
          key_there key,
        ),
        λ (user, kind, source, amount, psp, key). (
          user_back user,
          (
            kind_back kind,
            (
              source_back source,
              (
                amount_back amount,
                (
                  psp_back psp,
                  (
                    embedded_psp all name m.psp_config,
                    (key_back key, (timestamp_rule all name m.expires_at, tt)),
                  ),
                ),
              ),
            ),
          ),
        ),
      )

  deposit_accepted :
      (all : Bool) (m : Option (CreateDepositRequest T))
      → (validate_create_deposit_request methods all m ≡ none) ↔ DepositConforms m
  unfolding validate_create_deposit_request
  deposit_accepted all none = (λ _. tt, λ _. refl)
  deposit_accepted all (some m) =
      through (run_rules_iff all "CreateDepositRequest" (deposit_rules methods all m))
        (deposit_iff all m)

  withdraw_accepted :
      (all : Bool) (m : Option (CreateWithdrawRequest T))
      → (validate_create_withdraw_request methods all m ≡ none) ↔ WithdrawConforms m
  unfolding validate_create_withdraw_request
  withdraw_accepted all none = (λ _. tt, λ _. refl)
  withdraw_accepted all (some m) =
      through (run_rules_iff all "CreateWithdrawRequest" (withdraw_rules methods all m))
        (withdraw_iff all m)

  transfer_accepted :
      (all : Bool) (m : Option CreateTransferRequest)
      → (validate_create_transfer_request all m ≡ none) ↔ TransferConforms m
  unfolding validate_create_transfer_request
  transfer_accepted all none = (λ _. tt, λ _. refl)
  transfer_accepted all (some m) =
      through (run_rules_iff all "CreateTransferRequest" (transfer_rules m)) (transfer_iff m)

  -- Where timestamps have no validation of their own, Validate and ValidateAll accept a request
  -- for a deposit, a withdrawal or a transfer exactly where it is nil or keeps the rules of
  -- finance.proto.
  pub validate_iff :
      (all : Bool) (deposit : Option (CreateDepositRequest T))
      (withdraw : Option (CreateWithdrawRequest T)) (transfer : Option CreateTransferRequest)
      → ((validate_create_deposit_request methods all deposit ≡ none) ↔ DepositConforms deposit)
        × ((validate_create_withdraw_request methods all withdraw ≡ none)
            ↔ WithdrawConforms withdraw)
        × ((validate_create_transfer_request all transfer ≡ none) ↔ TransferConforms transfer)
  validate_iff all deposit withdraw transfer =
      (deposit_accepted all deposit, withdraw_accepted all withdraw, transfer_accepted all transfer)
