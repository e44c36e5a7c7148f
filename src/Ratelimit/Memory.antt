-- ===== src/Ratelimit/Memory.antt =====
-- What the limiter's store holds after a tick of the cleanup (ratelimit/ratelimit.go).
use aeternixth_go_lib.Prelude.{
  ℕ, ◌+◌, ◌≤◌, false, String, List, [], ◌∷◌, none, some, ◌≡◌, refl, ltb, if◌then◌else◌, arith,
  lookup, insert, remove, Distinct, length, eq_iff, suc,
}
use aeternixth_go_lib.Ratelimit.{Store, allow, begin_allow, end_allow, reset, sweep, cleanup}
use aeternixth_go_lib.Ratelimit.Sequential.{
  Call, allow_at, reset_of, tick, apply, run, lookup-sweep, apply-Distinct,
}

-- The entries that a tick at the instant keeps.
abbrev live : ℕ → Store → ℕ
live now [] = 0
live now ((key, expires) ∷ entries) =
    if ltb expires now then live now entries else suc (live now entries)

abbrev one_if_live : ℕ → ℕ → ℕ
one_if_live now expires = if ltb expires now then 0 else 1

-- The calls of Allow whose cooldown reaches the instant.
abbrev pub recent : ℕ → ℕ → List Call → ℕ
recent cooldown now [] = 0
recent cooldown now (allow_at key at ∷ calls) =
    one_if_live now (at + cooldown) + recent cooldown now calls
recent cooldown now (_ ∷ calls) = recent cooldown now calls

live-remove :
    (now : ℕ) (key : String) (store : Store) → live now (remove key store) ≤ live now store
unfolding remove
live-remove now key [] = omega arith
live-remove now key ((k, e) ∷ store) = ground (arith, live-remove now key store)

live-insert :
    (now : ℕ) (key : String) (expires : ℕ) (store : Store)
    → live now (insert key expires store) ≤ live now store + one_if_live now expires
unfolding insert
live-insert now key expires [] = ground arith
live-insert now key expires ((k, e) ∷ store) = ground (arith, live-insert now key expires store)

live-sweep :
    (now at : ℕ) (entries store : Store) → live now (sweep at entries store) ≤ live now store
unfolding sweep
live-sweep now at [] store = omega arith
live-sweep now at ((k, e) ∷ entries) store = ground (
  arith,
  live-sweep now at entries (if ltb e at then remove k store else store),
  live-remove now k store,
)

live-cleanup : (now at : ℕ) (store : Store) → live now (cleanup at store) ≤ live now store
unfolding cleanup
live-cleanup now at store = live-sweep now at store store

live-allow :
    (now cooldown : ℕ) (key : String) (at : ℕ) (store : Store)
    → live now (allow cooldown key at store).1 ≤ live now store + one_if_live now (at + cooldown)
unfolding allow begin_allow end_allow
live-allow now cooldown key at store = ground (arith, live-insert now key (at + cooldown) store)

live-run :
    (now cooldown : ℕ) (calls : List Call) (store : Store)
    → live now (run cooldown calls store) ≤ live now store + recent cooldown now calls
unfolding run reset
live-run now cooldown [] store = omega arith
live-run now cooldown (allow_at key at ∷ calls) store = omega (
  arith,
  live-run now cooldown calls (allow cooldown key at store).1,
  live-allow now cooldown key at store,
)
live-run now cooldown (reset_of key ∷ calls) store =
    omega (arith, live-run now cooldown calls (remove key store), live-remove now key store)
live-run now cooldown (tick at ∷ calls) store =
    omega (arith, live-run now cooldown calls (cleanup at store), live-cleanup now at store)

lookup-head : (k : String) (e : ℕ) (store : Store) → lookup k ((k, e) ∷ store) ≡ some e
unfolding lookup
lookup-head k e store = ground (arith, eq_iff k k)

kept_tail :
    (now : ℕ) (k : String) (e : ℕ) (store : Store)
    → lookup k store ≡ none
    → ((key : String) (expires : ℕ)
        → lookup key ((k, e) ∷ store) ≡ some expires
        → ltb expires now ≡ false)
    → (key : String) (expires : ℕ) → lookup key store ≡ some expires
    → ltb expires now ≡ false
unfolding lookup
kept_tail now k e store fresh kept key expires found =
    kept key expires (ground (arith, eq_iff k key))

-- Where every entry that a key has is kept, all are.
length-live :
    (now : ℕ) (store : Store)
    → Distinct store
    → ((key : String) (expires : ℕ) → lookup key store ≡ some expires → ltb expires now ≡ false)
    → length store ≡ live now store
unfolding lookup
length-live now [] d kept = refl
length-live now ((k, e) ∷ store) (fresh, d) kept = ground (
  arith,
  kept k e (lookup-head k e store),
  length-live now store d (kept_tail now k e store fresh kept),
)

run-Distinct :
    (cooldown : ℕ) (calls : List Call) (store : Store)
    → Distinct store
    → Distinct (run cooldown calls store)
unfolding run
run-Distinct cooldown [] store d = d
run-Distinct cooldown (c ∷ calls) store d =
    run-Distinct cooldown calls (apply cooldown c store) (apply-Distinct cooldown c store d)

cleanup-kept :
    (now : ℕ) (store : Store) (key : String) (expires : ℕ)
    → Distinct store
    → lookup key (cleanup now store) ≡ some expires
    → ltb expires now ≡ false
unfolding cleanup
cleanup-kept now store key expires d found = ground (arith, lookup-sweep now key store store d)

-- After any sequence of calls, resets and cleanups on an empty store, a tick of the cleanup leaves
-- at most as many entries as there were calls of Allow whose cooldown reaches its instant.
pub length-cleanup :
    (cooldown now : ℕ) (calls : List Call)
    → length (cleanup now (run cooldown calls [])) ≤ recent cooldown now calls
length-cleanup cooldown now calls =
    let left = run cooldown calls [] in
    let distinct = run-Distinct cooldown calls [] tt in
    let kept = cleanup-kept now left in
    omega (
      arith,
      length-live now (cleanup now left) (apply-Distinct cooldown (tick now) left distinct)
          (λ key expires. kept key expires distinct),
      live-cleanup now now left,
      live-run now cooldown calls [],
    )
