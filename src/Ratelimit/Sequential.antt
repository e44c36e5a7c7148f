-- ===== src/Ratelimit/Sequential.antt =====
-- The limiter used by one goroutine at a time: ratelimit/ratelimit.go through what callers see.
use aeternixth_go_lib.Prelude.{
  ℕ, ◌+◌, ◌-◌, ◌≤◌, ◌<◌, true, false, not, ◌&&◌, String, List, [], ◌∷◌, Option, none, some, ◌≡◌,
  refl, arith, ltb, if◌then◌else◌, lookup, remove, Distinct, All, lookup-insert, lookup-remove,
  insert-Distinct, remove-Distinct, eq_iff, str_eq, ◌∙◌,
}
use aeternixth_go_lib.Ratelimit.{Store, allow, reset, sweep, cleanup}

-- Until when the key is blocked, as a later caller sees it: 0 where it is free.
unfoldable pub blocked_until : String → Store → ℕ
blocked_until key store = elim (lookup key store) [ none ↦ 0 | some expires ↦ expires ]

module _ (cooldown : ℕ) where
  -- A call is allowed exactly where the key is not blocked, and is told how long to wait if it is;
  -- it blocks its own key for the cooldown where it is allowed, and changes nothing else.
  pub allow_lem :
      (key j : String) (now : ℕ) (store : Store)
      → ((allow cooldown key now store).0 ≡ (
          if ltb now (blocked_until key store)
          then (false, blocked_until key store - now)
          else (true, 0)))
        × (blocked_until j (allow cooldown key now store).1 ≡ (
            if str_eq key j && not (ltb now (blocked_until key store))
            then now + cooldown
            else blocked_until j store))
  unfolding allow blocked_until
  allow_lem key j now store =
      (ground arith, ground (arith, lookup-insert key j (now + cooldown) store, eq_iff key j))

pub blocked_until-reset :
    (key j : String) (store : Store)
    → blocked_until j (reset key store) ≡ (if str_eq key j then 0 else blocked_until j store)
unfolding reset blocked_until
blocked_until-reset key j store = ground (arith, lookup-remove key j store)

abbrev pub swept : ℕ → Option ℕ → Option ℕ → Option ℕ
swept now none found = found
swept now (some expires) found = if ltb expires now then none else found

pub lookup-sweep :
    (now : ℕ) (j : String) (entries store : Store)
    → Distinct entries
    → lookup j (sweep now entries store) ≡ swept now (lookup j entries) (lookup j store)
unfolding sweep lookup
lookup-sweep now j [] store d = refl
lookup-sweep now j ((key, expires) ∷ entries) store (fresh, d) = ground (
  arith,
  lookup-sweep now j entries (if ltb expires now then remove key store else store) d,
  lookup-remove key j store,
  eq_iff key j,
)

pub blocked_until-cleanup :
    (now : ℕ) (key : String) (store : Store)
    → Distinct store
    → blocked_until key (cleanup now store)
      ≡ (if ltb (blocked_until key store) now then 0 else blocked_until key store)
unfolding cleanup blocked_until
blocked_until-cleanup now key store d = ground (arith, lookup-sweep now key store store d)

-- On a store with one entry for a key, a tick of the cleanup is not seen by any call of Allow at
-- its instant or later.
pub allow-cleanup :
    (cooldown : ℕ) (key : String) (now later : ℕ) (store : Store)
    → Distinct store
    → now ≤ later
    → (allow cooldown key later (cleanup now store)).0 ≡ (allow cooldown key later store).0
allow-cleanup cooldown key now later store d h = ground (
  arith,
  (allow_lem cooldown key key later (cleanup now store)).0,
  (allow_lem cooldown key key later store).0,
  blocked_until-cleanup now key store d,
)

-- A use of the limiter, with the instant that it reads.
pub data Call : Type 0 where
  allow_at : String → ℕ → Call
  reset_of : String → Call
  tick : ℕ → Call

abbrev pub apply : ℕ → Call → Store → Store
apply cooldown (allow_at key now) store = (allow cooldown key now store).1
apply cooldown (reset_of key) store = reset key store
apply cooldown (tick now) store = cleanup now store

unfoldable pub run : ℕ → List Call → Store → Store
run cooldown [] store = store
run cooldown (call ∷ calls) store = run cooldown calls (apply cooldown call store)

-- A call before the instant `until`, and no reset of the key.
abbrev pub Quiet : String → ℕ → Call → Type 0
Quiet key until (allow_at j now) = now < until
Quiet key until (reset_of j) = str_eq key j ≡ false
Quiet key until (tick now) = now ≤ until

sweep-Distinct :
    (now : ℕ) (entries store : Store) → Distinct store → Distinct (sweep now entries store)
unfolding sweep
sweep-Distinct now [] store d = d
sweep-Distinct now ((key, expires) ∷ entries) store d =
    sweep-Distinct now entries (if ltb expires now then remove key store else store)
      (ground (arith, remove-Distinct key store d))

allow-Distinct :
    (cooldown : ℕ) (key : String) (now : ℕ) (store : Store)
    → Distinct store
    → Distinct (allow cooldown key now store).1
unfolding allow
allow-Distinct cooldown key now store d =
    ground (arith, insert-Distinct key (now + cooldown) store d)

-- Every use of the limiter keeps one entry for a key.
pub apply-Distinct :
    (cooldown : ℕ) (call : Call) (store : Store)
    → Distinct store
    → Distinct (apply cooldown call store)
unfolding reset cleanup
apply-Distinct cooldown (allow_at key now) store d = allow-Distinct cooldown key now store d
apply-Distinct cooldown (reset_of key) store d = remove-Distinct key store d
apply-Distinct cooldown (tick now) store d = sweep-Distinct now store store d

blocked_until-apply :
    (cooldown : ℕ) (key : String) (until : ℕ) (call : Call) (store : Store)
    → Distinct store
    → Quiet key until call
    → blocked_until key store ≡ until
    → blocked_until key (apply cooldown call store) ≡ until
blocked_until-apply cooldown key until (allow_at j now) store d q b =
    ground (arith, (allow_lem cooldown j key now store).1, eq_iff j key)
blocked_until-apply cooldown key until (reset_of j) store d q b =
    ground (arith, blocked_until-reset j key store, eq_iff j key, eq_iff key j)
blocked_until-apply cooldown key until (tick now) store d q b =
    ground (arith, blocked_until-cleanup now key store d)

blocked_until-run :
    (cooldown : ℕ) (key : String) (until : ℕ) (calls : List Call) (store : Store)
    → Distinct store
    → All (Quiet key until) calls
    → blocked_until key store ≡ until
    → blocked_until key (run cooldown calls store) ≡ until
unfolding run
blocked_until-run cooldown key until [] store d q b = b
blocked_until-run cooldown key until (call ∷ calls) store d (q, qs) b =
    blocked_until-run cooldown key until calls (apply cooldown call store)
      (apply-Distinct cooldown call store d) qs
      (blocked_until-apply cooldown key until call store d q b)

-- On a store with one entry for a key, after an allowed call, and whatever is called until its
-- cooldown is over (without a reset of the key), the key is refused up to the end of that
-- cooldown, with the time left, and allowed from then on.
pub allow_spacing :
    (cooldown : ℕ) (key : String) (now later : ℕ) (calls : List Call) (store : Store)
    → Distinct store
    → (allow cooldown key now store).0 ≡ (true, 0)
    → All (Quiet key (now + cooldown)) calls
    → (allow cooldown key later (run cooldown calls (allow cooldown key now store).1)).0
      ≡ (if ltb later (now + cooldown) then (false, now + cooldown - later) else (true, 0))
allow_spacing cooldown key now later calls store d allowed q =
    let taken = (allow cooldown key now store).1 in
    let blocked : blocked_until key taken ≡ now + cooldown = ground (
      arith,
      (allow_lem cooldown key key now store).0,
      (allow_lem cooldown key key now store).1,
      eq_iff key key,
    ) in
    let still =
      blocked_until-run cooldown key (now + cooldown) calls taken
        (allow-Distinct cooldown key now store d) q blocked in
    (allow_lem cooldown key key later (run cooldown calls taken)).0 ∙ rw still
