-- ===== src/Health/Schedule.antt =====
-- The orders in which the goroutines of `runChecks` can end.
use aeternixth_go_lib.Prelude.{
  Bool, String, List, [], ◌∷◌, Option, none, some, ◌≡◌, refl, lookup, Distinct, eq_iff, arith,
  if◌then◌else◌, str_eq,
}
use aeternixth_go_lib.Health.{Pinger, Finish}

-- One of the checks that still run, and the others.
pub data Selects (name : String) (p : Pinger)
    : List (String × Pinger) → List (String × Pinger) → Type 0 where
  first : {rest : List (String × Pinger)} → Selects name p ((name, p) ∷ rest) rest
  later :
      {j : String} {q : Pinger} {xs rest : List (String × Pinger)}
      → Selects name p xs rest
      → Selects name p ((j, q) ∷ xs) ((j, q) ∷ rest)

-- Any check that still runs may end next, before or after the deadline, until none is left.
pub data Schedules : List (String × Pinger) → List Finish → Type 0 where
  ended : Schedules [] []
  ends :
      {name : String} {p : Pinger} {xs rest : List (String × Pinger)} {order : List Finish}
      → (late : Bool) → Selects name p xs rest
      → Schedules rest order
      → Schedules xs (record { name = name; pinger = p; late = late } ∷ order)

-- The last end of a check with the name.
abbrev pub find : String → List Finish → Option Finish
find j [] = none
find j (f ∷ order) = if str_eq f.name j then some f else find j order

pub lookup-Selects :
    {name : String} {p : Pinger} {xs rest : List (String × Pinger)} (j : String)
    → Selects name p xs rest
    → Distinct xs
    → (lookup j xs ≡ (if str_eq name j then some p else lookup j rest))
      × Distinct rest
      × (lookup name rest ≡ none)
unfolding lookup
lookup-Selects j first (fresh, d) = (refl, d, fresh)
lookup-Selects {name} j (later {j = i} s) (fresh, d) =
    let (here, d', gone) = lookup-Selects j s d in
    let (there, _, _) = lookup-Selects i s d in
    (
      ground (arith, eq_iff i j, eq_iff name j),
      ground (arith, eq_iff name i),
      ground (arith, eq_iff i name, eq_iff name i),
    )

abbrev pub pinger_of : Option Finish → Option Pinger
pinger_of none = none
pinger_of (some f) = some f.pinger

-- Every check ends once, with its own pinger.
pub find-Schedules :
    {xs : List (String × Pinger)} {order : List Finish} (j : String)
    → Schedules xs order
    → Distinct xs
    → pinger_of (find j order) ≡ lookup j xs
unfolding lookup
find-Schedules j ended d = refl
find-Schedules j (ends {name} late s r) d =
    let (here, d', _) = lookup-Selects j s d in ground (arith, find-Schedules j r d', eq_iff name j)
