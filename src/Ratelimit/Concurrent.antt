-- ===== src/Ratelimit/Concurrent.antt =====
-- The limiter used by many goroutines: `Allow` of ratelimit/ratelimit.go as its two atomic steps,
-- and the background cleanup as a visit of `Range` and a `Delete`, in every interleaving.
pub mod Winner
use aeternixth_go_lib.Prelude.{
  ℕ, ◌+◌, ◌≤◌, ◌<◌, Bool, true, String, Option, none, some, ◌≡◌, ◌≢◌, refl, arith, ◌==◌,
  if◌then◌else◌, lookup, insert, remove,
}
use aeternixth_go_lib.Ratelimit.{Store, Phase, done, replacing, begin_allow, end_allow}

-- The shared map, where each goroutine is in its call of `Allow` (none: not yet begun), and the key
-- that the cleanup has found expired and is about to delete.
pub record World : Type 0 where
  pub store : Store
  pub thread : ℕ → Option Phase
  pub condemned : Option String

abbrev pub update : (ℕ → Option Phase) → ℕ → Phase → ℕ → Option Phase
update f i p j = if i == j then some p else f j

-- Goroutine `i` calls `Allow (key i)` and reads the instant `now i`; the cleanup reads instants of
-- at most `horizon`.
module _ (cooldown horizon : ℕ) (key : ℕ → String) (now : ℕ → ℕ) where
  pub data Step : World → World → Type 0 where
    begin :
        (w : World) (i : ℕ) (p : Phase) (store : Store)
        → w.thread i ≡ none
        → begin_allow cooldown (key i) (now i) w.store ≡ (p, store)
        → Step w (record w { store = store; thread = update w.thread i p })
    finish :
        (w : World) (i : ℕ) (k : String) (expires : ℕ) (allowed : Bool) (wait : ℕ) (store : Store)
        → w.thread i ≡ some (replacing k expires)
        → end_allow (replacing k expires) w.store ≡ ((allowed, wait), store)
        → Step w (record w { store = store; thread = update w.thread i (done allowed wait) })
    visit :
        (w : World) (k : String) (expires tick : ℕ)
        → tick ≤ horizon
        → lookup k w.store ≡ some expires
        → expires < tick
        → Step w (record w { condemned = some k })
    delete :
        (w : World) (k : String)
        → w.condemned ≡ some k
        → Step w (record w { store = remove k w.store; condemned = none })

  pub data Reach (v : World) : World → Type 0 where
    here : Reach v v
    next : {u w : World} → Reach v u → Step u w → Reach v w

  expired :
      (i : ℕ) (k : String) (expires : ℕ) (store : Store)
      → key i ≡ k
      → lookup k store ≡ some expires
      → expires ≤ now i
      → begin_allow cooldown (key i) (now i) store ≡ (replacing k (now i + cooldown), store)
  unfolding begin_allow
  expired i k expires store ki found h = rw ki (ground arith)

  -- From every state, two calls of a key that have not begun, by two goroutines that both read an
  -- instant at which the key's entry has expired, can both be allowed, whatever the cooldown.
  pub both_allowed :
      (w : World) (i j : ℕ) (k : String) (expires : ℕ)
      → i ≢ j
      → key i ≡ k
      → key j ≡ k
      → lookup k w.store ≡ some expires
      → expires ≤ now i
      → expires ≤ now j
      → w.thread i ≡ none
      → w.thread j ≡ none
      → (w' : World) × Reach w w'
        × (w'.thread i ≡ some (done true 0))
        × (w'.thread j ≡ some (done true 0))
  unfolding end_allow
  both_allowed w i j k expires ne ki kj found hi hj ti tj =
      let x : Phase = replacing k (now i + cooldown) in
      let y : Phase = replacing k (now j + cooldown) in
      let s = insert k (now i + cooldown) w.store in
      let w1 : World = record w { thread = update w.thread i x } in
      let w2 : World = record w1 { thread = update w1.thread j y } in
      let w3 : World = record w2 { store = s; thread = update w2.thread i (done true 0) } in
      let w4 : World = record w3 {
        store = insert k (now j + cooldown) s;
        thread = update w3.thread j (done true 0);
      } in
      let r1 = next here (begin w i x w.store ti (expired i k expires w.store ki found hi)) in
      let r2 =
        next r1 (begin w1 j y w.store (ground arith) (expired j k expires w.store kj found hj)) in
      let r3 = next r2 (finish w2 i k (now i + cooldown) true 0 s (ground arith) refl) in
      let r4 = next r3 (finish w3 j k (now j + cooldown) true 0 w4.store (ground arith) refl) in
      (w4, r4, ground arith, ground arith)
