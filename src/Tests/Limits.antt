-- ===== src/Tests/Limits.antt =====
-- The rate limiter at concrete inputs.
use aeternixth_go_lib.Prelude.{
  ◌≤◌, lookup, length, ℕ, String, List, [], ◌∷◌, true, false, none, some, ◌≡◌, refl, arith,
  if◌then◌else◌, ltb, ◌-◌, ◌+◌,
}
use aeternixth_go_lib.Ratelimit.{Store, done, begin_allow, end_allow, allow, cleanup}
use aeternixth_go_lib.Ratelimit.Sequential.{Call, allow_at, reset_of, tick, run, allow_spacing}
use aeternixth_go_lib.Ratelimit.Concurrent.{World, Reach, both_allowed, update}
use aeternixth_go_lib.Ratelimit.Refinement.{answers, spec_answers, answers-spec_answers}
use aeternixth_go_lib.Ratelimit.Sequential.{blocked_until}
use aeternixth_go_lib.Ratelimit.Memory.{recent, length-cleanup}

abbrev stored : Store
stored = ("ann", 50) ∷ ("bob", 10) ∷ []

abbrev calls : List Call
calls = allow_at "bob" 65 ∷ allow_at "ann" 70 ∷ tick 75 ∷ reset_of "bob" ∷ []

length-cleanup_example : length (cleanup 110 (run 30 calls [])) ≤ recent 30 110 calls
length-cleanup_example = length-cleanup 30 110 calls

allow_spacing_example :
    (allow 30 "ann" 80 (run 30 calls (allow 30 "ann" 60 stored).1)).0
    ≡ (if ltb 80 (60 + 30) then (false, 60 + 30 - 80) else (true, 0))
unfolding allow begin_allow end_allow lookup
allow_spacing_example =
    allow_spacing 30 "ann" 60 80 calls stored (refl, (refl, tt)) refl
      (omega arith, (omega arith, (omega arith, (refl, tt))))

-- Goroutines 0 and 1 call `Allow "ann"` at the instant 60.
abbrev key : ℕ → String
key i = "ann"

abbrev now : ℕ → ℕ
now i = 60

abbrev idle : Store → World
idle s = record { store = s; thread = λ i. none; condemned = none }

both_allowed_example :
    (w' : World) × Reach 30 60 key now (idle stored) w'
    × (w'.thread 0 ≡ some (done true 0))
    × (w'.thread 1 ≡ some (done true 0))
unfolding lookup
both_allowed_example =
    both_allowed 30 60 key now (idle stored) 0 1 "ann" 50 (omega arith) refl refl refl (omega arith)
      (omega arith) refl refl

abbrev begun : World
begun = record (idle []) {
  store = ("ann", 90) ∷ [];
  thread = update (idle []).thread 0 (done true 0);
}

abbrev uses : List Call
uses = allow_at "bob" 20 ∷ allow_at "ann" 40 ∷ tick 55 ∷ allow_at "ann" 55 ∷ reset_of "bob" ∷ []

answers-spec_answers_example :
    answers 30 uses stored ≡ spec_answers 30 uses (λ j. blocked_until j stored)
unfolding lookup
answers-spec_answers_example =
    answers-spec_answers 30 uses stored (refl, (refl, tt))
      (omega arith, (omega arith, (omega arith, (omega arith, tt))))
