-- ===== src/Finance/Rules/Laws.antt =====
-- The course of a `validate` method: when it finds nothing, and how its two modes go together.
use aeternixth_go_lib.Prelude.{
  String, List, [], ◌∷◌, Bool, true, false, Option, none, some, ◌≡◌, refl, ◌↔◌, All,
}
use aeternixth_go_lib.Finance.Violations.{
  Violation, text, violation, multi, Violations, end, cons, append,
}
use aeternixth_go_lib.Finance.Rules.{verdict, run_rules, Methods, embedded}

abbrev pub Kept : List (Option Violation) → Type 0
Kept = All (λ o. o ≡ none)

abbrev pub join : Violations → List (Option Violation) → Violations
join failures [] = failures
join failures (none ∷ rules) = join failures rules
join failures (some failure ∷ rules) = join (append failures failure) rules

pub run_all :
    (message : String) (rules : List (Option Violation)) (failures : Violations)
    → run_rules true message rules failures ≡ verdict message (join failures rules)
unfolding run_rules
run_all message [] failures = refl
run_all message (none ∷ rules) failures = run_all message rules failures
run_all message (some failure ∷ rules) failures = run_all message rules (append failures failure)

abbrev first : List (Option Violation) → Option Violation
first [] = none
first (none ∷ rules) = first rules
first (some failure ∷ rules) = some failure

run_first :
    (message : String) (rules : List (Option Violation))
    → run_rules false message rules end ≡ first rules
unfolding run_rules
run_first message [] = refl
run_first message (none ∷ rules) = run_first message rules
run_first message (some failure ∷ rules) = refl

-- The list of all violations begins with the one that is reported alone, and there is a list
-- exactly where there is one.
abbrev pub Agree : String → Option Violation → Option Violation → Type 0
Agree message none one = one ≡ none
Agree message (some (multi name (cons failure failures))) one =
    (name ≡ message) × (one ≡ some failure)
Agree message (some _) one = ⊥

join-Agree :
    (message : String) (failure : Violation) (failures : Violations)
    (rules : List (Option Violation))
    → Agree message (verdict message (join (cons failure failures) rules)) (some failure)
unfolding append
join-Agree message failure failures [] = (refl, refl)
join-Agree message failure failures (none ∷ rules) = join-Agree message failure failures rules
join-Agree message failure failures (some next ∷ rules) =
    join-Agree message failure (append failures next) rules

verdict-Agree :
    (message : String) (rules : List (Option Violation))
    → Agree message (verdict message (join end rules)) (first rules)
unfolding append
verdict-Agree message [] = refl
verdict-Agree message (none ∷ rules) = verdict-Agree message rules
verdict-Agree message (some failure ∷ rules) = join-Agree message failure end rules

pub run_rules-Agree :
    (message : String) (rules : List (Option Violation))
    → Agree message (run_rules true message rules end) (run_rules false message rules end)
run_rules-Agree message rules =
    rw (run_all message rules end, run_first message rules) (verdict-Agree message rules)

first_iff : (rules : List (Option Violation)) → (first rules ≡ none) ↔ Kept rules
first_iff [] = (λ _. tt, λ _. refl)
first_iff (none ∷ rules) = (λ e. (refl, (first_iff rules).0 e), λ (_, k). (first_iff rules).1 k)
first_iff (some failure ∷ rules) = (λ e. cc, λ (e, _). cc)

Agree-none :
    (message : String) (many one : Option Violation)
    → Agree message many one
    → (many ≡ none) ↔ (one ≡ none)
Agree-none message none one e = (λ _. e, λ _. refl)
Agree-none message (some (multi name (cons failure failures))) one (_, e) = (λ h. cc, λ h. cc)
Agree-none message (some (multi name end)) one e = absurd e
Agree-none message (some (text t)) one e = absurd e
Agree-none message (some (violation m f r c k)) one e = absurd e

run_first_iff :
    (message : String) (rules : List (Option Violation))
    → (run_rules false message rules end ≡ none) ↔ Kept rules
run_first_iff message rules = rw (run_first message rules) (first_iff rules)

-- Both modes find nothing exactly where no rule is broken.
pub run_rules_iff :
    (all : Bool) (message : String) (rules : List (Option Violation))
    → (run_rules all message rules end ≡ none) ↔ Kept rules
run_rules_iff false message rules = run_first_iff message rules
run_rules_iff true message rules =
    let (there, back) =
      Agree-none message (run_rules true message rules end) (run_rules false message rules end)
        (run_rules-Agree message rules) in
    let (kept, nothing) = run_first_iff message rules in
    (λ e. kept (there e), λ k. back (nothing k))

-- A type that has neither of the two methods.
abbrev pub no_methods : Methods
no_methods = record { validate_all = none; validate = none }

pub embedded-none :
    (all : Bool) (message field : String) → embedded all message field no_methods ≡ none
unfolding embedded
embedded-none true message field = refl
embedded-none false message field = refl
