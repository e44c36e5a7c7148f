-- ===== src/Finance/Rules.antt =====
-- proto/finance/v1/finance.pb.validate.go: the course of a `validate` method. It goes through the
-- rules of the message; the first violation is the verdict, or with `all` the list of all of them.
pub mod Laws
pub mod Reports
use aeternixth_go_lib.Prelude.{
  ℕ, String, List, [], ◌∷◌, Bool, true, false, Option, none, some, if◌then◌else◌, ◌≡◌,
}
use aeternixth_go_lib.Finance.Violations.{
  Violation, violation, multi, Cause, uncaused, caused, Violations, end, cons, append,
}

-- `if len(errors) > 0 { return ...MultiError(errors) }`
abbrev pub verdict : String → Violations → Option Violation
verdict message end = none
verdict message (cons first rest) = some (multi message (cons first rest))

-- The rules in the order of the code, each with its violation if there is one.
unfoldable pub run_rules : Bool → String → List (Option Violation) → Violations → Option Violation
unfolding append
run_rules all message [] failures = verdict message failures
run_rules all message (none ∷ rules) failures = run_rules all message rules failures
run_rules all message (some failure ∷ rules) failures = elim all [
  | true ↦ run_rules all message rules (append failures failure)
  | false ↦ some failure
]

-- The violation of a rule with the test of the rule's `if`.
abbrev pub when_broken : Bool → String → String → String → Cause → Option Violation
when_broken broken message field reason cause =
    if broken then some (violation message field reason cause false) else none

-- What a type has of the two methods, with their answers.
pub record Methods : Type 0 where
  pub validate_all : Option (Option Violation)
  pub validate : Option (Option Violation)

abbrev embedded_failure : String → String → Option Violation → Option Violation
embedded_failure message field none = none
embedded_failure message field (some failure) =
    some (violation message field "embedded message failed validation" (caused failure) false)

abbrev ask : String → String → Option (Option Violation) → Option Violation → Option Violation
ask message field none other = other
ask message field (some verdict) other = embedded_failure message field verdict

-- The rule of a field that is a message: the type switch with `all`, the type assertion without.
unfoldable pub embedded : Bool → String → String → Methods → Option Violation
embedded all message field m =
    if all
    then ask message field m.validate_all (ask message field m.validate none)
    else ask message field m.validate none
