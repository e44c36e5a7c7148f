-- ===== src/Health.antt =====
-- observability/health: the readiness aggregator of internal/core/core.go, and the handlers of the
-- two runtimes.
pub mod Schedule
pub mod Evaluate
pub mod Handlers
pub mod Kafka
pub mod Pingers
use aeternixth_go_lib.Prelude.{
  ℕ, Bool, true, false, String, List, [], ◌∷◌, Option, none, some, if◌then◌else◌, insert,
}

-- What a pinger sees of its context: nothing has happened, the probe's deadline has passed, or a
-- sibling's error has cancelled the group.
pub data Context : Type 0 where
  live deadline cancelled : Context

-- A dependency check in one request: its error's text by the context that it sees, or nil.
abbrev pub Pinger : Type 0
Pinger = Context → Option String

pub record CheckResult : Type 0 where
  pub passed : Bool
  pub error : String

pub record ReadyResponse : Type 0 where
  pub status : String
  pub checks : List (String × CheckResult)

-- The goroutine of one check that comes to its end: its name, its pinger, and whether the deadline
-- had passed.
pub record Finish : Type 0 where
  pub name : String
  pub pinger : Pinger
  pub late : Bool

-- The response's map, under the mutex, and whether the `errgroup` has cancelled its context.
pub record Group : Type 0 where
  pub checks : List (String × CheckResult)
  pub is_cancelled : Bool

unfoldable pub check_result : Option String → CheckResult
check_result none = record { passed = true; error = "" }
check_result (some err) = record { passed = false; error = err }

-- The function given to `g.Go`: the map that it leaves, and the error that it returns.
unfoldable pub check_goroutine :
    Context → Finish → List (String × CheckResult) → List (String × CheckResult) × Option String
unfolding check_result
check_goroutine ctx f checks = (insert f.name (check_result (f.pinger ctx)) checks, none)

abbrev pub context_of : Bool → Bool → Context
context_of cancelled_group late =
    if cancelled_group then cancelled else if late then deadline else live

-- `errgroup`: the first error that is returned cancels the group's context.
unfoldable pub finish_one : Finish → Group → Group
unfolding check_goroutine
finish_one f g =
    let (checks, err) = check_goroutine (context_of g.is_cancelled f.late) f g.checks in
    record { checks = checks; is_cancelled = elim err [ none ↦ g.is_cancelled | some _ ↦ true ] }

-- `g.Wait`: the goroutines have ended in the order of the schedule.
unfoldable pub wait : List Finish → Group → Group
unfolding finish_one
wait [] g = g
wait (f ∷ schedule) g = wait schedule (finish_one f g)

-- The loop over the results, with its break.
unfoldable pub overall : List (String × CheckResult) → String × ℕ
overall [] = ("ready", 200)
overall ((name, c) ∷ checks) = if c.passed then overall checks else ("not_ready", 503)

-- `runChecks`, for one order in which the goroutines end
unfoldable pub run_checks : List Finish → ReadyResponse × ℕ
unfolding wait overall
run_checks schedule =
    let g = wait schedule (record { checks = []; is_cancelled = false }) in
    let (status, code) = overall g.checks in (record { status = status; checks = g.checks }, code)
