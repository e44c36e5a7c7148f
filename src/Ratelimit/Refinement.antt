-- ===== src/Ratelimit/Refinement.antt =====
-- ratelimit/ratelimit.go against the limiter that its documentation describes: for each key the
-- instant until which it is blocked, without a store and without a cleanup.
use aeternixth_go_lib.Prelude.{
  ℕ, ◌+◌, ◌-◌, ◌≤◌, Bool, true, false, String, List, [], ◌∷◌, ◌≡◌, refl, ◌⊎◌, inl, arith, ltb,
  if◌then◌else◌, Distinct, eq_iff, str_eq,
}
use aeternixth_go_lib.Ratelimit.{Store, allow, reset, cleanup}
use aeternixth_go_lib.Ratelimit.Sequential.{
  Call, allow_at, reset_of, tick, apply-Distinct, blocked_until, allow_lem, blocked_until-reset,
  blocked_until-cleanup,
}

abbrev pub Blocked : Type 0
Blocked = String → ℕ

abbrev pub block : String → ℕ → Blocked → Blocked
block key until s j = if str_eq key j then until else s j

-- What the documentation says of a call: its answer, and the blocks after it.
unfoldable pub spec_answer : String → ℕ → Blocked → Bool × ℕ
spec_answer key now s = if ltb now (s key) then (false, s key - now) else (true, 0)

unfoldable pub spec_apply : ℕ → Call → Blocked → Blocked
spec_apply cooldown (allow_at key now) s =
    if ltb now (s key) then s else block key (now + cooldown) s
spec_apply cooldown (reset_of key) s = block key 0 s
spec_apply cooldown (tick now) s = s

-- The answers to the calls of `Allow` in a sequence of uses.
unfoldable pub answers : ℕ → List Call → Store → List (Bool × ℕ)
unfolding allow
answers cooldown [] store = []
answers cooldown (allow_at key now ∷ calls) store =
    (allow cooldown key now store).0 ∷ answers cooldown calls (allow cooldown key now store).1
answers cooldown (reset_of key ∷ calls) store = answers cooldown calls (reset key store)
answers cooldown (tick now ∷ calls) store = answers cooldown calls (cleanup now store)

unfoldable pub spec_answers : ℕ → List Call → Blocked → List (Bool × ℕ)
unfolding spec_answer spec_apply
spec_answers cooldown [] s = []
spec_answers cooldown (allow_at key now ∷ calls) s =
    spec_answer key now s ∷ spec_answers cooldown calls (spec_apply cooldown (allow_at key now) s)
spec_answers cooldown (reset_of key ∷ calls) s =
    spec_answers cooldown calls (spec_apply cooldown (reset_of key) s)
spec_answers cooldown (tick now ∷ calls) s =
    spec_answers cooldown calls (spec_apply cooldown (tick now) s)

-- The instants that are read do not go back, from `t` on.
abbrev pub Ordered : ℕ → List Call → Type 0
Ordered t [] = Unit
Ordered t (allow_at key now ∷ calls) = (t ≤ now) × Ordered now calls
Ordered t (reset_of key ∷ calls) = Ordered t calls
Ordered t (tick now ∷ calls) = (t ≤ now) × Ordered now calls

-- From `t` on nobody can tell the store from the blocks.
abbrev Agrees : ℕ → Store → Blocked → Type 0
Agrees t store s =
    (j : String) → (blocked_until j store ≡ s j) ⊎ ((blocked_until j store ≤ t) × (s j ≤ t))

module _ (cooldown : ℕ) where
  allow-Agrees :
      (t : ℕ) (key : String) (now : ℕ) (store : Store) (s : Blocked)
      → t ≤ now
      → Agrees t store s
      → ((allow cooldown key now store).0 ≡ spec_answer key now s)
        × Agrees now (allow cooldown key now store).1 (spec_apply cooldown (allow_at key now) s)
  unfolding spec_answer spec_apply
  allow-Agrees t key now store s h a = (
    ground (arith, (allow_lem cooldown key key now store).0, a key),
    λ j. ground (arith, (allow_lem cooldown key j now store).1, a key, a j, eq_iff key j),
  )

  reset-Agrees :
      (t : ℕ) (key : String) (store : Store) (s : Blocked)
      → Agrees t store s
      → Agrees t (reset key store) (spec_apply cooldown (reset_of key) s)
  unfolding spec_apply
  reset-Agrees t key store s a j = ground (arith, blocked_until-reset key j store, a j)

  cleanup-Agrees :
      (t now : ℕ) (store : Store) (s : Blocked)
      → Distinct store
      → t ≤ now
      → Agrees t store s
      → Agrees now (cleanup now store) (spec_apply cooldown (tick now) s)
  unfolding spec_apply
  cleanup-Agrees t now store s d h a j = ground (arith, blocked_until-cleanup now j store d, a j)

  answers-Agrees :
      (t : ℕ) (calls : List Call) (store : Store) (s : Blocked)
      → Distinct store
      → Ordered t calls
      → Agrees t store s
      → answers cooldown calls store ≡ spec_answers cooldown calls s
  unfolding answers spec_answers
  answers-Agrees t [] store s d o a = refl
  answers-Agrees t (allow_at key now ∷ calls) store s d (h, o) a =
      let (same, after) = allow-Agrees t key now store s h a in
      rw (
        same,
        answers-Agrees now calls (allow cooldown key now store).1
            (spec_apply cooldown (allow_at key now) s)
            (apply-Distinct cooldown (allow_at key now) store d) o after,
      )
  answers-Agrees t (reset_of key ∷ calls) store s d o a =
      answers-Agrees t calls (reset key store) (spec_apply cooldown (reset_of key) s)
        (apply-Distinct cooldown (reset_of key) store d) o (reset-Agrees t key store s a)
  answers-Agrees t (tick now ∷ calls) store s d (h, o) a =
      answers-Agrees now calls (cleanup now store) (spec_apply cooldown (tick now) s)
        (apply-Distinct cooldown (tick now) store d) o (cleanup-Agrees t now store s d h a)

  -- For every sequence of calls, resets and cleanups whose instants do not go back, on a store
  -- with one entry for a key, the answers are those of the abstract limiter, which holds for each
  -- key the instant until which it is blocked and has no cleanup.
  pub answers-spec_answers :
      (calls : List Call) (store : Store)
      → Distinct store
      → Ordered 0 calls
      → answers cooldown calls store ≡ spec_answers cooldown calls (λ j. blocked_until j store)
  answers-spec_answers calls store d o =
      answers-Agrees 0 calls store (λ j. blocked_until j store) d o (λ j. inl refl)
