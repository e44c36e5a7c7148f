-- ===== src/Itestkit/Names.antt =====
-- itestkit/internal/stringutil/normalize.go and the names made from it.
use aeternixth_go_lib.Prelude.{
  ℕ, ◌+◌, Bool, true, ◌&&◌, ◌||◌, ◌==◌, leb, List, [], ◌∷◌, All, ◌≡◌, refl, arith, if◌then◌else◌,
}

-- The body of the loop, on one rune.
unfoldable pub normalize_rune : ℕ → ℕ
normalize_rune r =
    if leb b'a' r && leb r b'z' || leb b'0' r && leb r b'9' || r == b'_' || r == b'-'
    then r
    else if leb b'A' r && leb r b'Z'
    then r + 32
    else b'_'

-- `NormalizeIdentifier`, over the runes of its argument
unfoldable pub normalize_identifier : List ℕ → List ℕ
unfolding normalize_rune
normalize_identifier [] = []
normalize_identifier (r ∷ s) = normalize_rune r ∷ normalize_identifier s

-- A rune that an identifier may hold.
abbrev pub is_identifier_rune : ℕ → Bool
is_identifier_rune r =
    leb b'a' r && leb r b'z' || leb b'0' r && leb r b'9' || r == b'_' || r == b'-'

normalize_rune_lem :
    (r : ℕ)
    → (is_identifier_rune (normalize_rune r) ≡ true)
      × (normalize_rune (normalize_rune r) ≡ normalize_rune r)
unfolding normalize_rune
normalize_rune_lem r = ground arith

-- A normalized identifier has lower-case ASCII letters, digits, underscores and dashes only, and
-- to normalize it again changes nothing.
pub normalize_identifier_lem :
    (s : List ℕ)
    → All (λ r. is_identifier_rune r ≡ true) (normalize_identifier s)
      × (normalize_identifier (normalize_identifier s) ≡ normalize_identifier s)
unfolding normalize_identifier
normalize_identifier_lem [] = (tt, refl)
normalize_identifier_lem (r ∷ s) =
    let (all, again) = normalize_identifier_lem s in
    let (good, twice) = normalize_rune_lem r in ((good, all), rw (twice, again))
