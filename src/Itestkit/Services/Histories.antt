-- ===== src/Itestkit/Services/Histories.antt =====
-- The starters make no call of the setup: the history stays as it is (itestkit/postgres.go and the
-- others).
use aeternixth_go_lib.Prelude.{
  ℕ, Bool, true, false, String, List, [], ◌∷◌, ◌++◌, ◌≡◌, refl, ap, ◌∙◌, ◌⊎◌, inl, inr,
}
use aeternixth_go_lib.Itestkit.Outside.{History}
use aeternixth_go_lib.Itestkit.Docker.{Docker, on_result}
use aeternixth_go_lib.Itestkit.Services.{terminate_all, start_all}
use aeternixth_go_lib.Itestkit.Services.Laws.{Started}

pub terminate_all-history :
    {Res : Type 0} (container : Res → ℕ) (keep : Bool) (rs : List (String × Res)) (d : Docker)
    → (terminate_all container keep rs d).history ≡ d.history
unfolding terminate_all
terminate_all-history container keep [] d = refl
terminate_all-history container true ((name, r) ∷ rs) d = terminate_all-history container true rs d
terminate_all-history container false ((name, r) ∷ rs) d =
    terminate_all-history container false rs (record d { terminated = container r ∷ d.terminated })

Started-history :
    {Res : Type 0} (container : Res → ℕ) (d : Docker) (x : (Res ⊎ String) × Docker)
    → Started container d x
    → x.1.history ≡ d.history
Started-history container d (inl r, d') (_, e) = ap (λ d. d.history) e
Started-history container d (inr err, d') (inl e) = ap (λ d. d.history) e
Started-history container d (inr err, d') (inr (inl e)) = ap (λ d. d.history) e
Started-history container d (inr err, d') (inr (inr e)) = ap (λ d. d.history) e

module _ {Cfg Res : Type 0} (container : Res → ℕ) (keep : Bool) (what : String)
    (start_one : String → Cfg → Docker → (Res ⊎ String) × Docker)
    (starts : (name : String) (cfg : Cfg) (d : Docker)
      → Started container d (start_one name cfg d)) where
  after_one :
      {B : Type 0} (good : Res → Docker → B × Docker) (bad : String → Docker → B × Docker)
      (h : History) (x : (Res ⊎ String) × Docker)
      → x.1.history ≡ h
      → ((r : Res) (d : Docker) → d.history ≡ h → (good r d).1.history ≡ h)
      → ((err : String) (d : Docker) → d.history ≡ h → (bad err d).1.history ≡ h)
      → (on_result good bad x).1.history ≡ h
  after_one good bad h (inl r, d) e g b = g r d e
  after_one good bad h (inr err, d) e g b = b err d e

  pub start_all-history :
      (cfgs : List (String × Cfg)) (out : List (String × Res)) (d : Docker) (h : History)
      → d.history ≡ h
      → (start_all container keep what start_one cfgs out d).1.history ≡ h
  unfolding start_all
  start_all-history [] out d h e = e
  start_all-history ((name, cfg) ∷ rest) out d h e =
      after_one _ _ h (start_one name cfg d)
        (Started-history container d (start_one name cfg d) (starts name cfg d) ∙ e)
        (λ r d' e'. start_all-history rest (out ++ (name, r) ∷ []) d' h e')
        (λ err d' e'. terminate_all-history container keep out d' ∙ e')
