-- ===== src/Finance/Rules/Reports.antt =====
-- Which fields the list of all violations names.
use aeternixth_go_lib.Prelude.{
  String, List, [], ◌∷◌, ◌++◌, Bool, true, false, Option, none, some, ◌≡◌, refl, ◌↔◌, ◌⊎◌, inl, inr,
  ◌∙◌, ap, sym, append-nil, append_assoc,
}
use mathlib.Core.Path.{subst}
use aeternixth_go_lib.Finance.Violations.{
  Violation, text, violation, multi, Cause, Violations, end, cons, append,
}
use aeternixth_go_lib.Finance.Rules.{verdict, run_rules, when_broken}
use aeternixth_go_lib.Finance.Rules.Laws.{join, run_all}

-- A field with the rule that it has to keep.
abbrev pub Rule : Type 1
Rule = String × Type 0

-- The names are those of the broken rules' fields, in the order of the rules.
abbrev pub Breaks : List Rule → List String → Type 0
Breaks [] names = names ≡ []
Breaks ((field, P) ∷ rules) names =
    (P × Breaks rules names)
    ⊎ ((¬ P) × ((rest : List String) × (names ≡ field ∷ rest) × Breaks rules rest))

abbrev field_of : Violation → String
field_of (violation message field reason cause key) = field
field_of _ = ""

abbrev pub fields : Violations → List String
fields end = []
fields (cons failure failures) = field_of failure ∷ fields failures

-- No error where no rule is broken, else the message's list of violations of the broken rules.
abbrev pub Reports : String → List Rule → Option Violation → Type 0
Reports message rules none = Breaks rules []
Reports message rules (some (multi name failures)) =
    (name ≡ message) × Breaks rules (fields failures)
Reports message rules (some _) = ⊥

-- A check finds nothing where the rule is kept, and else a violation for the rule's field.
abbrev pub Fits : String → Type 0 → Option Violation → Type 0
Fits field P none = P
Fits field P (some (violation message name reason cause key)) = (name ≡ field) × (¬ P)
Fits field P (some _) = ⊥

abbrev pub Describes : List (Option Violation) → List Rule → Type 0
Describes [] [] = Unit
Describes (o ∷ os) ((field, P) ∷ rules) = Fits field P o × Describes os rules
Describes _ _ = ⊥

pub when_broken-Fits :
    (broken : Bool) (message field reason : String) (cause : Cause) (P : Type 0)
    → (when_broken broken message field reason cause ≡ none) ↔ P
    → Fits field P (when_broken broken message field reason cause)
when_broken-Fits true message field reason cause P (there, back) = (refl, λ p. cc (back p))
when_broken-Fits false message field reason cause P (there, back) = there refl

abbrev names_of : List (Option Violation) → List String
names_of [] = []
names_of (none ∷ os) = names_of os
names_of (some failure ∷ os) = field_of failure ∷ names_of os

fields-append :
    (failures : Violations) (failure : Violation)
    → fields (append failures failure) ≡ fields failures ++ field_of failure ∷ []
unfolding append
fields-append end failure = refl
fields-append (cons first rest) failure =
    ap (λ (names : List String). field_of first ∷ names) (fields-append rest failure)

fields-join :
    (failures : Violations) (os : List (Option Violation))
    → fields (join failures os) ≡ fields failures ++ names_of os
fields-join failures [] = sym (append-nil (fields failures))
fields-join failures (none ∷ os) = fields-join failures os
fields-join failures (some failure ∷ os) =
    fields-join (append failures failure) os
    ∙ (ap (λ (names : List String). names ++ names_of os) (fields-append failures failure)
        ∙ append_assoc (fields failures) (field_of failure ∷ []) (names_of os))

names_of-Breaks :
    (os : List (Option Violation)) (rules : List Rule)
    → Describes os rules
    → Breaks rules (names_of os)
names_of-Breaks [] [] d = refl
names_of-Breaks (none ∷ os) ((field, P) ∷ rules) (kept, d) = inl (kept, names_of-Breaks os rules d)
names_of-Breaks (some (violation m name r c k) ∷ os) ((field, P) ∷ rules) ((e, broken), d) =
    inr (broken, (names_of os, ap (λ (n : String). n ∷ names_of os) e, names_of-Breaks os rules d))
names_of-Breaks (some (text t) ∷ os) ((field, P) ∷ rules) (bad, d) = absurd bad
names_of-Breaks (some (multi n vs) ∷ os) ((field, P) ∷ rules) (bad, d) = absurd bad
names_of-Breaks [] (rule ∷ rules) d = absurd d
names_of-Breaks (o ∷ os) [] d = absurd d

verdict-Reports :
    (message : String) (rules : List Rule) (failures : Violations)
    → Breaks rules (fields failures)
    → Reports message rules (verdict message failures)
verdict-Reports message rules end b = b
verdict-Reports message rules (cons first rest) b = (refl, b)

pub run_rules-Reports :
    (message : String) (os : List (Option Violation)) (rules : List Rule)
    → Describes os rules
    → Reports message rules (run_rules true message os end)
run_rules-Reports message os rules d =
    subst (Reports message rules) (sym (run_all message os end)) (
      verdict-Reports message rules (join end os)
        (subst (Breaks rules) (sym (fields-join end os)) (names_of-Breaks os rules d)))
