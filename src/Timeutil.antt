-- ===== src/Timeutil.antt =====
-- timeutil/time.go: an instant is a number of nanoseconds since the year 1, and a duration is a
-- 64-bit word; the clock's instant is an argument.
use aeternixth_go_lib.Prelude.{ℕ, ◌+◌, ◌-◌, ◌*◌, ◌^◌, ◌≤◌, ◌≡◌, if◌then◌else◌, arith}
use aeternixth_go_lib.Prelude.Words.{mul_words, is_negative, magnitude}

-- `Time.Add`
abbrev shifted : ℕ → ℕ → ℕ
shifted now d = if is_negative d then now - magnitude d else now + d

-- `NowPlusHour`, where the clock says `now`
unfoldable pub now_plus_hour : ℕ → ℕ → ℕ
unfolding mul_words
now_plus_hour now hour = shifted now (mul_words (mul_words (mul_words hour 60) 60) 1000000000)

later :
    (h : ℕ) → h ≤ 2562047 → mul_words (mul_words (mul_words h 60) 60) 1000000000 ≡ h * 3600000000000
unfolding mul_words
later h b = omega arith

earlier :
    (h : ℕ)
    → 1 ≤ h
    → h ≤ 2562047
    → mul_words (mul_words (mul_words (2 ^ 64 - h) 60) 60) 1000000000 ≡ 2 ^ 64 - h * 3600000000000
unfolding mul_words
earlier h a b = omega arith

-- Up to 2562047 hours, about 292 years, ahead or back, NowPlusHour is exactly that many hours from
-- now: no product overflows.
pub now_plus_hour_lem :
    (now h : ℕ)
    → h ≤ 2562047
    → (now_plus_hour now h ≡ now + h * 3600000000000)
      × (1 ≤ h → now_plus_hour now (2 ^ 64 - h) ≡ now - h * 3600000000000)
unfolding now_plus_hour
now_plus_hour_lem now h b = (rw (later h b) (ground arith), λ a. rw (earlier h a b) (ground arith))
