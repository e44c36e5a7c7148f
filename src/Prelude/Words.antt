-- ===== src/Prelude/Words.antt =====
-- Go's 64-bit integers as words: a number below 2^64, which stands for the number itself below 2^63
-- and for the number less 2^64 from there on. Sums and products wrap; a division cuts towards zero.
use aeternixth_go_lib.Prelude.Tests.{leb, if◌then◌else◌}
use Prim.Native.Nat.{ℕ, ◌+◌, ◌-◌, ◌*◌, ◌/◌, ◌%◌, ◌^◌, ◌<◌}
use mathlib.Core.Path.{◌≡◌}
use mathlib.Core.Bool.{Bool, true, false, not, ◌&&◌}
use native.Mathlib.Nat.{mod-eq_of_lt, mod-le, div-le_self}
use native.Mathlib.Omega.{arith}
use aeternixth_go_lib.Prelude.Tests.{◌==◌}

abbrev pub IsWord : ℕ → Type 0
IsWord a = a < 2 ^ 64

-- A word that stands for a number that is not negative.
abbrev pub IsNatural : ℕ → Type 0
IsNatural a = a < 2 ^ 63

abbrev pub is_negative : ℕ → Bool
is_negative a = leb (2 ^ 63) a

abbrev pub is_positive : ℕ → Bool
is_positive a = not (is_negative a) && not (a == 0)

abbrev pub negated : ℕ → ℕ
negated a = (2 ^ 64 - a) % 2 ^ 64

abbrev pub magnitude : ℕ → ℕ
magnitude a = if is_negative a then 2 ^ 64 - a else a

abbrev signed : Bool → ℕ → ℕ
signed true m = negated (m % 2 ^ 64)
signed false m = m % 2 ^ 64

abbrev differ : Bool → Bool → Bool
differ true b = not b
differ false b = b

-- Go's operators `+`, `*`, `/` and `%`
unfoldable pub add_words : ℕ → ℕ → ℕ
add_words a b = (a + b) % 2 ^ 64

unfoldable pub mul_words : ℕ → ℕ → ℕ
mul_words a b = a * b % 2 ^ 64

unfoldable pub quotient : ℕ → ℕ → ℕ
quotient a b = signed (differ (is_negative a) (is_negative b)) (magnitude a / magnitude b)

unfoldable pub remainder : ℕ → ℕ → ℕ
remainder a b = signed (is_negative a) (magnitude a % magnitude b)

natural_lem : (a : ℕ) → IsNatural a → is_negative a ≡ false
natural_lem a h = ground arith

pub mul_words-exact : (a b : ℕ) → a * b < 2 ^ 64 → mul_words a b ≡ a * b
unfolding mul_words
mul_words-exact a b h = mod-eq_of_lt h

pub quotient_natural : (a b : ℕ) → IsNatural a → IsNatural b → quotient a b ≡ a / b
unfolding quotient
quotient_natural a b h k =
    rw (natural_lem a h, natural_lem b k)
      (mod-eq_of_lt {n = a / b} {m = 2 ^ 64} (omega (arith, div-le_self a b)))

pub remainder_natural : (a b : ℕ) → IsNatural a → IsNatural b → remainder a b ≡ a % b
unfolding remainder
remainder_natural a b h k =
    rw (natural_lem a h, natural_lem b k)
      (mod-eq_of_lt {n = a % b} {m = 2 ^ 64} (omega (arith, mod-le a b)))
