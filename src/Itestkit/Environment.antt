-- ===== src/Itestkit/Environment.antt =====
-- itestkit/internal/stringutil/normalize.go: `EnvFragment`, the part of an environment variable's
-- name that stands for an instance. `unicode_upper` is Unicode's upper-case table beyond ASCII.
pub mod Export
pub mod Apply
pub mod Variables
use aeternixth_go_lib.Prelude.{
  ℕ, ◌-◌, Bool, true, ◌&&◌, ◌||◌, ◌==◌, leb, ltb, List, [], ◌∷◌, ◌≡◌, ◌↔◌, arith, if◌then◌else◌,
  ◌⊎◌, All,
}
use aeternixth_go_lib.Itestkit.Validation.Names.{IsNameRune}

-- `strings.ReplaceAll(s, "-", "_")`
abbrev pub underscored : List ℕ → List ℕ
underscored [] = []
underscored (c ∷ s) = (if c == b'-' then b'_' else c) ∷ underscored s

-- The same rune, or an underscore and a dash.
abbrev pub Similar : ℕ → ℕ → Type 0
Similar c d = (c ≡ d) ⊎ (((c ≡ b'-') × (d ≡ b'_')) ⊎ ((c ≡ b'_') × (d ≡ b'-')))

abbrev pub AllSimilar : List ℕ → List ℕ → Type 0
AllSimilar [] [] = Unit
AllSimilar (c ∷ s) (d ∷ t) = Similar c d × AllSimilar s t
AllSimilar _ _ = ⊥

cons_iff :
    {P Q : Type 0} (a b : ℕ) (x y : List ℕ) → (a ≡ b) ↔ P → (x ≡ y) ↔ Q → (a ∷ x ≡ b ∷ y) ↔ (P × Q)
cons_iff a b x y p q = ground arith

module _ (unicode_upper : ℕ → ℕ) where
  -- `unicode.ToUpper`
  unfoldable pub upper : ℕ → ℕ
  upper c = if leb b'a' c && leb c b'z' then c - 32 else if ltb c 128 then c else unicode_upper c

  -- `strings.ToUpper`
  unfoldable pub to_upper : List ℕ → List ℕ
  unfolding upper
  to_upper [] = []
  to_upper (c ∷ s) = upper c ∷ to_upper s

  unfoldable pub env_fragment : List ℕ → List ℕ
  unfolding to_upper
  env_fragment s = underscored (to_upper s)

  rune_iff :
      (c d : ℕ)
      → IsNameRune c
      → IsNameRune d
      → ((if upper c == b'-' then b'_' else upper c) ≡ (if upper d == b'-' then b'_' else upper d))
        ↔ Similar c d
  unfolding upper
  rune_iff c d h k = ground arith

  -- Two names of lower-case letters, digits, underscores and dashes get one variable exactly where
  -- they differ in nothing but underscores for dashes.
  pub env_fragment_iff :
      (s t : List ℕ)
      → All IsNameRune s
      → All IsNameRune t
      → (env_fragment s ≡ env_fragment t) ↔ AllSimilar s t
  unfolding env_fragment to_upper
  env_fragment_iff [] [] h k = ground arith
  env_fragment_iff [] (d ∷ t) h k = ground arith
  env_fragment_iff (c ∷ s) [] h k = ground arith
  env_fragment_iff (c ∷ s) (d ∷ t) (hc, hs) (kd, kt) =
      cons_iff _ _ _ _ (rune_iff c d hc kd) (env_fragment_iff s t hs kt)
