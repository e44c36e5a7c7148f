-- ===== src/Ratelimit.antt =====
-- ratelimit/ratelimit.go: the limiter. Instants and durations are natural numbers of nanoseconds;
-- `time.Now` is an argument. `sync.Map` is a map whose single calls are atomic, so `Allow` is two
-- atomic steps: `begin_allow` up to `LoadOrStore`, and `end_allow` with the `Store` of a new entry.
pub mod Sequential
pub mod Memory
pub mod Refinement
pub mod Concurrent
use aeternixth_go_lib.Prelude.{
  ℕ, ◌+◌, ◌-◌, Bool, true, false, String, List, [], ◌∷◌, none, some, ltb, if◌then◌else◌, lookup,
  insert, remove,
}

-- An entry is its `expiresAt`.
abbrev pub Store : Type 0
Store = List (String × ℕ)

-- A call of `Allow` between its steps: it has its result, or it goes on to replace an expired entry.
pub data Phase : Type 0 where
  done : Bool → ℕ → Phase
  replacing : String → ℕ → Phase

unfoldable pub begin_allow : ℕ → String → ℕ → Store → Phase × Store
begin_allow cooldown key now store = elim (lookup key store) [
  | none ↦ (done true 0, insert key (now + cooldown) store)
  | some expires ↦ (
    if ltb now expires then done false (expires - now) else replacing key (now + cooldown),
    store,
  )
]

unfoldable pub end_allow : Phase → Store → (Bool × ℕ) × Store
end_allow (done allowed retry_after) store = ((allowed, retry_after), store)
end_allow (replacing key expires) store = ((true, 0), insert key expires store)

-- `Allow`, run by one goroutine alone
unfoldable pub allow : ℕ → String → ℕ → Store → (Bool × ℕ) × Store
unfolding begin_allow end_allow
allow cooldown key now store =
    let (phase, store') = begin_allow cooldown key now store in end_allow phase store'

unfoldable pub reset : String → Store → Store
reset key store = remove key store

-- The visits of `Range` in one tick of `cleanup`, over the entries that it finds.
unfoldable pub sweep : ℕ → Store → Store → Store
sweep now [] store = store
sweep now ((key, expires) ∷ entries) store =
    sweep now entries (if ltb expires now then remove key store else store)

-- One tick of `cleanup`, run alone
unfoldable pub cleanup : ℕ → Store → Store
unfolding sweep
cleanup now store = sweep now store store
