-- ===== src/Finance/Validate/Agreement.antt =====
-- How `Validate` and `ValidateAll` go together.
use aeternixth_go_lib.Prelude.{String, true, false, Option, none, some, ◌≡◌, refl, ◌∙◌, sym}
use aeternixth_go_lib.Finance.{
  PspConfig, CreateDepositRequest, CreateWithdrawRequest, CreateTransferRequest,
}
use aeternixth_go_lib.Finance.Rules.{Methods, embedded}
use aeternixth_go_lib.Finance.Rules.Laws.{Agree, run_rules-Agree, no_methods}
use aeternixth_go_lib.Finance.Validate.{
  psp_methods, deposit_rules, withdraw_rules, transfer_rules, validate_create_deposit_request,
  validate_create_withdraw_request, validate_create_transfer_request,
}
use aeternixth_go_lib.Finance.Validate.Laws.{timestamp_rule}
use aeternixth_go_lib.Finance.Validate.Conforms.{embedded_psp}

module _ {T : Type 0} (methods : Option T → Methods)
    (unmethodical : (t : Option T) → methods t ≡ no_methods) where
  rules_same :
      (message : String) (psp : Option PspConfig) (t : Option T)
      → (embedded true message "PspConfig" (psp_methods psp)
          ≡ embedded false message "PspConfig" (psp_methods psp))
        × (embedded true message "ExpiresAt" (methods t)
            ≡ embedded false message "ExpiresAt" (methods t))
  rules_same message psp t = (
    embedded_psp true message psp ∙ sym (embedded_psp false message psp),
    timestamp_rule methods unmethodical true message t
        ∙ sym (timestamp_rule methods unmethodical false message t),
  )

  deposit_agrees :
      (m : Option (CreateDepositRequest T))
      → Agree "CreateDepositRequest"
          (validate_create_deposit_request methods true m)
          (validate_create_deposit_request methods false m)
  unfolding validate_create_deposit_request
  deposit_agrees none = refl
  deposit_agrees (some m) =
      let name : String = "CreateDepositRequest" in
      let (psp, time) = rules_same name m.psp_config m.expires_at in
      rw (psp, time) (run_rules-Agree name (deposit_rules methods false m))

  withdraw_agrees :
      (m : Option (CreateWithdrawRequest T))
      → Agree "CreateWithdrawRequest"
          (validate_create_withdraw_request methods true m)
          (validate_create_withdraw_request methods false m)
  unfolding validate_create_withdraw_request
  withdraw_agrees none = refl
  withdraw_agrees (some m) =
      let name : String = "CreateWithdrawRequest" in
      let (psp, time) = rules_same name m.psp_config m.expires_at in
      rw (psp, time) (run_rules-Agree name (withdraw_rules methods false m))

  transfer_agrees :
      (m : Option CreateTransferRequest)
      → Agree "CreateTransferRequest"
          (validate_create_transfer_request true m)
          (validate_create_transfer_request false m)
  unfolding validate_create_transfer_request
  transfer_agrees none = refl
  transfer_agrees (some m) = run_rules-Agree "CreateTransferRequest" (transfer_rules m)

  -- Where timestamps have no validation of their own: for each of these requests ValidateAll finds
  -- something exactly where Validate does, and its list, under the message's name, begins with
  -- what Validate reports.
  pub validate-Agree :
      (deposit : Option (CreateDepositRequest T)) (withdraw : Option (CreateWithdrawRequest T))
      (transfer : Option CreateTransferRequest)
      → Agree "CreateDepositRequest"
          (validate_create_deposit_request methods true deposit)
          (validate_create_deposit_request methods false deposit)
        × Agree "CreateWithdrawRequest"
            (validate_create_withdraw_request methods true withdraw)
            (validate_create_withdraw_request methods false withdraw)
        × Agree "CreateTransferRequest"
            (validate_create_transfer_request true transfer)
            (validate_create_transfer_request false transfer)
  validate-Agree deposit withdraw transfer =
      (deposit_agrees deposit, withdraw_agrees withdraw, transfer_agrees transfer)
