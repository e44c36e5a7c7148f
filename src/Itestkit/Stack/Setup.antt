-- ===== src/Itestkit/Stack/Setup.antt =====
-- The phases of a start (itestkit/stack.go) against their plans.
use aeternixth_go_lib.Prelude.{
  Option, String, Bool, true, false, List, [], ◌∷◌, flat_map, ◌≡◌, refl, sym, ap, ◌∙◌, ◌⊎◌, inl,
  inr,
}
use aeternixth_go_lib.Itestkit.Options.{StackOptions}
use aeternixth_go_lib.Itestkit.Docker.{Client, Docker}
use aeternixth_go_lib.Itestkit.Files.{FileSystem}
use aeternixth_go_lib.Itestkit.Outside.{Outside, Failure, History}
use aeternixth_go_lib.Itestkit.Services.Histories.{terminate_all-history}
use aeternixth_go_lib.Itestkit.Setup.Plan.{Task, perform, then_perform, perform-append, ending}
use aeternixth_go_lib.Itestkit.Setup.Phases.{Services, Phase, run_phase, phase_plan}
use aeternixth_go_lib.Itestkit.Setup.Refinement.{run_phase-Follows}
use aeternixth_go_lib.Itestkit.Stack.{
  Network, World, StartError, terminate_services, terminate_stack, after_phase, recorded,
  run_phases,
}

-- Whether the start goes on, and the calls of the setup so far.
abbrev pub record_of : (Services ⊎ StartError) × World → Bool × History
record_of (inl s, (d, net)) = (true, d.history)
record_of (inr err, (d, net)) = (false, d.history)

pub terminate_stack-history :
    (removal : Option String) (keep : Bool) (s : Services) (d : Docker) (net : Network)
    (err : StartError)
    → record_of (inr err, terminate_stack removal keep s (d, net)) ≡ (false, d.history)
unfolding terminate_stack terminate_services
terminate_stack-history removal true s d net err = refl
terminate_stack-history removal false s d net err =
    ap (λ h. (false, h))
      (terminate_all-history _ false s.local_map _
        ∙ terminate_all-history _ false s.mock_map _
        ∙ terminate_all-history _ false s.kafka_map _
        ∙ terminate_all-history _ false s.redis_map _
        ∙ terminate_all-history _ false s.clickhouse_map _
        ∙ terminate_all-history _ false s.postgres_map d)

module _ (k : Client) (fs : FileSystem) (out : Outside) (keep : Bool) where
  after_phase-record :
      (p : Phase) (s : Services) (d : Docker) (net : Network)
      (go : Docker → (Services ⊎ StartError) × World) (answer : (Unit {0} ⊎ Failure) × History)
      (plan : List Task)
      → ((h : History) → record_of (go (recorded d h)) ≡ perform out plan h)
      → record_of (after_phase k fs out keep p s (d, net) go answer)
        ≡ then_perform out plan (ending out answer)
  after_phase-record p s d net go (inl _, h) plan g = g h
  after_phase-record p s d net go (inr err, h) plan g =
      terminate_stack-history k.network_removal keep s (recorded d h) net
        (StartError.phase_failed p err)

  pub run_phases-perform :
      (ps : List Phase) (opts : StackOptions) (s : Services) (d : Docker) (net : Network)
      → record_of (run_phases k fs out keep ps opts s (d, net))
        ≡ perform out (flat_map (phase_plan fs out opts s) ps) d.history
  unfolding run_phases perform flat_map
  run_phases-perform [] opts s d net = refl
  run_phases-perform (p ∷ ps) opts s d net =
      after_phase-record p s d net (λ d. run_phases k fs out keep ps opts s (d, net))
        (run_phase out fs opts s p d.history) (flat_map (phase_plan fs out opts s) ps)
        (λ h. run_phases-perform ps opts s (recorded d h) net)
      ∙ ap (then_perform out (flat_map (phase_plan fs out opts s) ps))
          (run_phase-Follows out fs opts s p d.history)
      ∙ sym (perform-append out (phase_plan fs out opts s p) _ d.history)
