-- ===== src/Itestkit/Environment/Apply.antt =====
-- itestkit/env.go: `ApplyEnv`. A process environment is a list of variables; `os.Setenv` refuses an
-- empty name, a name with `=` or NUL and a value with NUL, and the source ignores its error.
use aeternixth_go_lib.Prelude.{
  ℕ, String, List, [], ◌∷◌, Option, none, some, ◌≡◌, refl, arith, ◌∙◌, ap, codes, codes_eq_iff,
  if◌then◌else◌, Bool, true, false, ◌||◌, ◌==◌, not,
}
use aeternixth_go_lib.Itestkit.Setup.Phases.{Services}
use aeternixth_go_lib.Itestkit.Environment.Export.{
  Variables, set_variable, set_variables, read, read-set_variable, assignments, export_env, last_of,
  read-export_env,
}

abbrev has_rune : ℕ → List ℕ → Bool
has_rune c [] = false
has_rune c (d ∷ s) = d == c || has_rune c s

abbrev is_empty : List ℕ → Bool
is_empty [] = true
is_empty (c ∷ s) = false

abbrev pub can_set : List ℕ → String → Bool
can_set key val =
    not (is_empty key || has_rune b'=' key || has_rune 0 key || has_rune 0 (codes val))

-- `os.Setenv`
unfoldable pub setenv : List ℕ → String → Variables → Variables
unfolding set_variable
setenv key val env = if can_set key val then set_variable key val env else env

-- `ApplyEnv`, by the order in which the exported map is ranged over
unfoldable pub apply_env : Variables → Variables → Variables
unfolding setenv
apply_env [] env = env
apply_env ((k, v) ∷ exported) env = apply_env exported (setenv k v env)

-- No key stands twice.
abbrev pub DistinctKeys : Variables → Type 0
DistinctKeys [] = Unit
DistinctKeys ((k, v) ∷ vars) = (read k vars ≡ none) × DistinctKeys vars

set_variable-DistinctKeys :
    (key : List ℕ) (val : String) (out : Variables)
    → DistinctKeys out
    → DistinctKeys (set_variable key val out)
unfolding set_variable read
set_variable-DistinctKeys key val [] d = (refl, tt)
set_variable-DistinctKeys key val ((k, v) ∷ out) (fresh, d) = ground (
  arith,
  set_variable-DistinctKeys key val out d,
  read-set_variable k key val out,
  codes_eq_iff k key,
  codes_eq_iff key k,
)

set_variables-DistinctKeys :
    (later out : Variables) → DistinctKeys out → DistinctKeys (set_variables later out)
unfolding set_variables
set_variables-DistinctKeys [] out d = d
set_variables-DistinctKeys ((k, v) ∷ later) out d =
    set_variables-DistinctKeys later (set_variable k v out) (set_variable-DistinctKeys k v out d)

-- The exported variables are a map.
pub export_env-DistinctKeys :
    (unicode_upper : ℕ → ℕ) (s : Services) → DistinctKeys (export_env unicode_upper s)
unfolding export_env
export_env-DistinctKeys unicode_upper s =
    set_variables-DistinctKeys (assignments unicode_upper s) [] tt

-- What a variable has after it was exported with the value, if it was.
abbrev pub after_export : List ℕ → Option String → Option String → Option String
after_export key none before = before
after_export key (some val) before = if can_set key val then some val else before

read-apply_all :
    (key : List ℕ) (ranged env : Variables)
    → DistinctKeys ranged
    → read key (apply_env ranged env) ≡ after_export key (read key ranged) (read key env)
unfolding apply_env setenv read
read-apply_all key [] env d = refl
read-apply_all key ((k, v) ∷ ranged) env (fresh, d) = ground (
  arith,
  read-apply_all key ranged (if can_set k v then set_variable k v env else env) d,
  read-set_variable key k v env,
  codes_eq_iff k key,
)

-- In whatever order ApplyEnv ranges over the exported map, a variable has after it the value that
-- ExportEnv's loops assigned to it last, where the operating system takes that name and value, and
-- else what it had before.
pub apply_env_lem :
    (unicode_upper : ℕ → ℕ) (s : Services) (ranged env : Variables) (key : List ℕ)
    → DistinctKeys ranged
    → ((k : List ℕ) → read k ranged ≡ read k (export_env unicode_upper s))
    → read key (apply_env ranged env)
      ≡ after_export key (last_of key (assignments unicode_upper s) none) (read key env)
apply_env_lem unicode_upper s ranged env key d same =
    read-apply_all key ranged env d
    ∙ ap (λ (o : Option String). after_export key o (read key env))
        (same key ∙ read-export_env unicode_upper s key)
