-- ===== src/Prelude/Text.antt =====
-- The functions of Go's package `strings` that the source calls, over code points. A Go string is
-- taken to be valid UTF-8. The lower-case table of Unicode beyond ASCII is a parameter.
use Prim.Native.Nat.{ℕ, ◌+◌}
use mathlib.Core.Path.{◌≡◌, refl}
use mathlib.Core.Logic.{◌≢◌}
use mathlib.Core.Bool.{Bool, ◌&&◌, ◌||◌}
use mathlib.Core.List.{List, [], ◌∷◌, ◌++◌, map}
use native.Mathlib.Omega.{arith}
use aeternixth_go_lib.Prelude.Tests.{◌==◌, leb, ltb, if◌then◌else◌}
use aeternixth_go_lib.Prelude.Lists.{All}

-- `unicode.IsSpace`
unfoldable pub is_space : ℕ → Bool
is_space c =
    (leb 9 c && leb c 13)
    || (c == 32)
    || (c == 0x85)
    || (c == 0xA0)
    || (c == 0x1680)
    || (leb 0x2000 c && leb c 0x200a)
    || (c == 0x2028)
    || (c == 0x2029)
    || (c == 0x202f)
    || (c == 0x205f)
    || (c == 0x3000)

unfoldable pub trim_left : List ℕ → List ℕ
trim_left [] = []
trim_left (c ∷ s) = if is_space c then trim_left s else c ∷ s

-- A space at the end is dropped, where nothing but spaces follows.
abbrev trim_cons : ℕ → List ℕ → List ℕ
trim_cons c [] = if is_space c then [] else c ∷ []
trim_cons c (d ∷ s) = c ∷ d ∷ s

unfoldable pub trim_right : List ℕ → List ℕ
trim_right [] = []
trim_right (c ∷ s) = trim_cons c (trim_right s)

-- `strings.TrimSpace`
unfoldable pub trim_space : List ℕ → List ℕ
unfolding trim_left trim_right is_space
trim_space s = trim_right (trim_left s)

-- `strings.SplitN(s, sep, 2)[0]` for a separator of one character
unfoldable pub before : ℕ → List ℕ → List ℕ
before sep [] = []
before sep (c ∷ s) = if c == sep then [] else c ∷ before sep s

abbrev cons_head : ℕ → List (List ℕ) → List (List ℕ)
cons_head c [] = (c ∷ []) ∷ []
cons_head c (piece ∷ pieces) = (c ∷ piece) ∷ pieces

-- `strings.Split(s, sep)` for a separator of one character
unfoldable pub split : ℕ → List ℕ → List (List ℕ)
split sep [] = [] ∷ []
split sep (c ∷ s) = if c == sep then [] ∷ split sep s else cons_head c (split sep s)

-- `strings.ToLower`
unfoldable pub to_lower : (ℕ → ℕ) → List ℕ → List ℕ
to_lower unicode_lower =
    map (λ c. if leb b'A' c && leb c b'Z' then c + 32 else if ltb c 128 then c else unicode_lower c)

abbrev pub Lacks : ℕ → List ℕ → Type 0
Lacks sep = All (λ c. c ≢ sep)

pub split-append :
    (sep : ℕ) (s t : List ℕ) → Lacks sep s → split sep (s ++ sep ∷ t) ≡ s ∷ split sep t
unfolding split
split-append sep [] t h = ground arith
split-append sep (c ∷ s) t (p, h) = ground (arith, split-append sep s t h)

pub split_of_Lacks : (sep : ℕ) (s : List ℕ) → Lacks sep s → split sep s ≡ s ∷ []
unfolding split
split_of_Lacks sep [] h = refl
split_of_Lacks sep (c ∷ s) (p, h) = ground (arith, split_of_Lacks sep s h)
