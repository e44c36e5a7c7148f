-- ===== src/Health/Evaluate.antt =====
-- What `runChecks` of observability/health/internal/core/core.go answers, in every order in which
-- its goroutines can end.
use aeternixth_go_lib.Prelude.{
  Bool, true, false, ◌&&◌, String, List, [], ◌∷◌, Option, none, some, ◌≡◌, refl, lookup, insert,
  lookup-insert, or_else, Distinct, eq_iff, arith, if◌then◌else◌, All,
}
use aeternixth_go_lib.Health.{
  Pinger, CheckResult, Finish, Group, check_result, context_of, finish_one, wait, overall,
  run_checks,
}
use aeternixth_go_lib.Health.Schedule.{
  Schedules, ended, ends, find, lookup-Selects, find-Schedules, pinger_of,
}

-- The result of an end in a group that is not cancelled.
abbrev pub result : Finish → CheckResult
result f = check_result (f.pinger (context_of false f.late))

abbrev pub result_of : Option Finish → Option CheckResult
result_of none = none
result_of (some f) = some (result f)

-- The names of the ends differ.
abbrev Once : List Finish → Type 0
Once [] = Unit
Once (f ∷ order) = (find f.name order ≡ none) × Once order

Schedules-Once :
    {xs : List (String × Pinger)} {order : List Finish}
    → Schedules xs order
    → Distinct xs
    → Once order
Schedules-Once ended d = tt
Schedules-Once (ends {name} late s r) d =
    let (_, d', gone) = lookup-Selects name s d in
    (ground (arith, find-Schedules name r d'), Schedules-Once r d')

finish_one_lem :
    (f : Finish) (g : Group)
    → g.is_cancelled ≡ false
    → ((finish_one f g).checks ≡ insert f.name (result f) g.checks)
      × ((finish_one f g).is_cancelled ≡ false)
unfolding finish_one
finish_one_lem f g h = ground arith

lookup-wait :
    (j : String) (order : List Finish) (g : Group)
    → g.is_cancelled ≡ false
    → Once order
    → lookup j (wait order g).checks ≡ or_else (result_of (find j order)) (lookup j g.checks)
unfolding wait
lookup-wait j [] g h o = refl
lookup-wait j (f ∷ order) g h (fresh, o) =
    let (checks, calm) = finish_one_lem f g h in
    ground (
      arith,
      lookup-wait j order (finish_one f g) calm o,
      lookup-insert f.name j (result f) g.checks,
      eq_iff f.name j,
    )

-- A check and what is reported under its name.
abbrev pub Reported : Option Pinger → Option CheckResult → Type 0
Reported none none = Unit
Reported (some p) (some r) = (late : Bool) × (r ≡ check_result (p (context_of false late)))
Reported _ _ = ⊥

Reported-find :
    (found : Option Finish) (p : Option Pinger) → pinger_of found ≡ p → Reported p (result_of found)
Reported-find none none e = tt
Reported-find none (some p) e = cc
Reported-find (some f) none e = cc
Reported-find (some f) (some p) e = (f.late, ground arith)

-- Where each check has a name of its own, and in whatever order the checks end, every configured
-- check is reported under its name and nothing else is, with what its own pinger said in a context
-- that no sibling has cancelled.
pub run_checks-Reported :
    {checks : List (String × Pinger)} {order : List Finish} (j : String)
    → Distinct checks
    → Schedules checks order
    → Reported (lookup j checks) (lookup j (run_checks order).0.checks)
unfolding run_checks
run_checks-Reported {checks} {order} j d s =
    let start : Group = record { checks = []; is_cancelled = false } in
    rw (lookup-wait j order start refl (Schedules-Once s d)) (
      unfold lookup in
      ground (arith, Reported-find (find j order) (lookup j checks) (find-Schedules j s d)))

abbrev passed_all : List (String × CheckResult) → Bool
passed_all [] = true
passed_all ((name, c) ∷ checks) = c.passed && passed_all checks

abbrev pub all_succeed : List Finish → Bool
all_succeed [] = true
all_succeed (f ∷ order) = elim (f.pinger (context_of false f.late)) [
  | none ↦ all_succeed order
  | some err ↦ false
]

overall-passed_all :
    (checks : List (String × CheckResult))
    → overall checks ≡ (if passed_all checks then ("ready", 200) else ("not_ready", 503))
unfolding overall
overall-passed_all [] = refl
overall-passed_all ((name, c) ∷ checks) = ground (arith, overall-passed_all checks)

passed_all-insert :
    (k : String) (c : CheckResult) (checks : List (String × CheckResult))
    → lookup k checks ≡ none
    → passed_all (insert k c checks) ≡ (passed_all checks && c.passed)
unfolding lookup insert
passed_all-insert k c [] h = ground arith
passed_all-insert k c ((j, x) ∷ checks) h = ground (arith, passed_all-insert k c checks)

-- No result is written yet for what has still to end.
abbrev Fresh : List (String × CheckResult) → List Finish → Type 0
Fresh checks = All (λ f. lookup f.name checks ≡ none)

Fresh-insert :
    (k : String) (c : CheckResult) (checks : List (String × CheckResult)) (order : List Finish)
    → find k order ≡ none
    → Fresh checks order
    → Fresh (insert k c checks) order
Fresh-insert k c checks [] h fr = tt
Fresh-insert k c checks (f ∷ order) h (p, fr) = ground (
  arith,
  lookup-insert k f.name c checks,
  Fresh-insert k c checks order,
  eq_iff f.name k,
  eq_iff k f.name,
)

passed_all-wait :
    (order : List Finish) (g : Group)
    → g.is_cancelled ≡ false
    → Once order
    → Fresh g.checks order
    → passed_all (wait order g).checks ≡ (passed_all g.checks && all_succeed order)
unfolding wait check_result
passed_all-wait [] g h o fr = ground arith
passed_all-wait (f ∷ order) g h (here, o) (p, fr) =
    let (checks, calm) = finish_one_lem f g h in
    let fr' : Fresh (finish_one f g).checks order =
      rw checks (Fresh-insert f.name (result f) g.checks order here fr) in
    ground (
      arith,
      passed_all-wait order (finish_one f g) calm o fr',
      passed_all-insert f.name (result f) g.checks p,
    )

Fresh-nil : (order : List Finish) → Fresh [] order
unfolding lookup
Fresh-nil [] = tt
Fresh-nil (f ∷ order) = (refl, Fresh-nil order)

-- Where each check has a name of its own, and in whatever order the checks end, the answer is
-- ready with 200 if every pinger succeeded in the context that it saw, and not_ready with 503
-- otherwise.
pub run_checks_status :
    {checks : List (String × Pinger)} {order : List Finish}
    → Distinct checks
    → Schedules checks order
    → ((run_checks order).0.status ≡ (if all_succeed order then "ready" else "not_ready"))
      × ((run_checks order).1 ≡ (if all_succeed order then 200 else 503))
unfolding run_checks
run_checks_status {order} d s =
    let start : Group = record { checks = []; is_cancelled = false } in
    ground (
      arith,
      overall-passed_all (wait order start).checks,
      passed_all-wait order start refl (Schedules-Once s d) (Fresh-nil order),
    )
