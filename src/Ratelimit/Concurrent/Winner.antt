-- ===== src/Ratelimit/Concurrent/Winner.antt =====
-- Concurrent calls of `Allow` (ratelimit/ratelimit.go) on a key that has no entry: one is allowed.
use aeternixth_go_lib.Prelude.{
  ℕ, ◌+◌, ◌≤◌, ◌<◌, true, false, String, Option, none, some, ◌≡◌, ◌≢◌, ◌⊎◌, arith, lookup,
}
use aeternixth_go_lib.Ratelimit.{Phase, done, replacing}
use aeternixth_go_lib.Ratelimit.Concurrent.{World, update}

-- Not yet begun, or refused.
abbrev pub Loses : Option Phase → Type 0
Loses none = Unit
Loses (some (done false wait)) = Unit
Loses (some (done true wait)) = ⊥
Loses (some (replacing k expires)) = ⊥

module _ (cooldown horizon : ℕ) (key : ℕ → String) (now : ℕ → ℕ) (k : String) where
  record Before (w : World) : Type 0 where
    free : lookup k w.store ≡ none
    idle : (j : ℕ) → key j ≡ k → w.thread j ≡ none

  record Won (w : World) : Type 0 where
    winner : ℕ
    winner_key : key winner ≡ k
    won : w.thread winner ≡ some (done true 0)
    held : lookup k w.store ≡ some (now winner + cooldown)
    losers : (j : ℕ) → key j ≡ k → j ≢ winner → Loses (w.thread j)

  -- The calls come within one cooldown, and the cleanup's instants too.
  pub record IsClose : Type 0 where
    pub calls : (i j : ℕ) → key i ≡ k → key j ≡ k → now j < now i + cooldown
    pub ticks : (i : ℕ) → key i ≡ k → horizon ≤ now i + cooldown

  pub record Inv (w : World) : Type 0 where
    safe : w.condemned ≢ some k
    still : (j expires : ℕ) → w.thread j ≢ some (replacing k expires)
    phase : Before w ⊎ Won w

  thread_other : (f : ℕ → Option Phase) (i j : ℕ) (p : Phase) → j ≢ i → update f i p j ≡ f j
  thread_other f i j p ne = ground arith

  thread_same : (f : ℕ → Option Phase) (i : ℕ) (p : Phase) → update f i p i ≡ some p
  thread_same f i p = ground arith
