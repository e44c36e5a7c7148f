-- ===== src/Prelude/Regex.antt =====
-- Go's package `regexp`, for patterns of a whole text (`^…$` without flags): the expressions, a
-- matcher by derivatives, and the texts that an expression stands for.
pub mod Classes
use Prim.Native.Nat.{ℕ, zero, suc}
use mathlib.Core.Path.{◌≡◌, refl, ap, sym, subst}
use mathlib.Core.Logic.{◌↔◌, ◌⊎◌, inl, inr}
use mathlib.Core.Bool.{Bool, true, false, ◌&&◌, ◌||◌}
use mathlib.Core.List.{List, [], ◌∷◌, ◌++◌}
use native.Mathlib.Omega.{arith}
use aeternixth_go_lib.Prelude.Tests.{Bool-cases}

pub data Regex : Type 0 where
  nothing : Regex
  empty : Regex
  class : (ℕ → Bool) → Regex
  seq : Regex → Regex → Regex
  alt : Regex → Regex → Regex
  star : Regex → Regex

-- `r+`
abbrev pub plus : Regex → Regex
plus r = seq r (star r)

-- `r?`
abbrev pub optional : Regex → Regex
optional r = alt empty r

-- `r{n}`
abbrev pub repeat : ℕ → Regex → Regex
repeat zero r = empty
repeat (suc n) r = seq r (repeat n r)

-- `r{0,n}`
abbrev pub at_most : ℕ → Regex → Regex
at_most zero r = empty
at_most (suc n) r = optional (seq r (at_most n r))

nullable : Regex → Bool
nullable nothing = false
nullable empty = true
nullable (class p) = false
nullable (seq r q) = nullable r && nullable q
nullable (alt r q) = nullable r || nullable q
nullable (star r) = true

-- The expression, where the test holds.
guarded : Bool → Regex → Regex
guarded true r = r
guarded false r = nothing

-- What may follow the character in a text of the expression.
derivative : ℕ → Regex → Regex
derivative c nothing = nothing
derivative c empty = nothing
derivative c (class p) = guarded (p c) empty
derivative c (seq r q) = alt (seq (derivative c r) q) (guarded (nullable r) (derivative c q))
derivative c (alt r q) = alt (derivative c r) (derivative c q)
derivative c (star r) = seq (derivative c r) (star r)

-- `MatchString`
unfoldable pub match_string : Regex → List ℕ → Bool
unfolding nullable derivative guarded
match_string r [] = nullable r
match_string r (c ∷ s) = match_string (derivative c r) s

-- A text that falls into parts, none of them empty, that have the property.
pub data Parts (P : List ℕ → Type 0) : List ℕ → Type 0 where
  done : Parts P []
  more : {u : List ℕ} (c : ℕ) (s t : List ℕ) → P (c ∷ s) → Parts P t → u ≡ c ∷ s ++ t → Parts P u

abbrev pub Language : Regex → List ℕ → Type 0
Language nothing s = ⊥
Language empty s = s ≡ []
Language (class p) s = (c : ℕ) × (s ≡ c ∷ []) × (p c ≡ true)
Language (seq r q) s = (a : List ℕ) × (b : List ℕ) × (s ≡ a ++ b) × Language r a × Language q b
Language (alt r q) s = Language r s ⊎ Language q s
Language (star r) s = Parts (Language r) s

nullable_sound : (r : Regex) → nullable r ≡ true → Language r []
unfolding nullable
nullable_sound nothing h = cc
nullable_sound empty h = refl
nullable_sound (class p) h = cc
nullable_sound (seq r q) h =
    ([], [], refl, nullable_sound r (ground arith), nullable_sound q (ground arith))
nullable_sound (alt r q) h = elim (Bool-cases (nullable r)) [
  | inl e ↦ inl (nullable_sound r e)
  | inr e ↦ inr (nullable_sound q (ground arith))
]
nullable_sound (star r) h = done

nullable_complete : (r : Regex) → Language r [] → nullable r ≡ true
unfolding nullable
nullable_complete nothing l = absurd l
nullable_complete empty l = refl
nullable_complete (class p) (c, e, _) = cc
nullable_complete (seq r q) ([], [], e, l, k) =
    ground (arith, nullable_complete r l, nullable_complete q k)
nullable_complete (seq r q) ([], d ∷ b, e, l, k) = cc
nullable_complete (seq r q) (d ∷ a, b, e, l, k) = cc
nullable_complete (alt r q) (inl l) = ground (arith, nullable_complete r l)
nullable_complete (alt r q) (inr l) = ground (arith, nullable_complete q l)
nullable_complete (star r) l = refl

pub cons_injective : {c d : ℕ} {s t : List ℕ} → c ∷ s ≡ d ∷ t → (c ≡ d) × (s ≡ t)
cons_injective e = (cc, cc)

guarded_iff :
    (b : Bool) (r : Regex) (s : List ℕ) → Language (guarded b r) s ↔ ((b ≡ true) × Language r s)
unfolding guarded
guarded_iff true r s = (λ l. (refl, l), λ (_, l). l)
guarded_iff false r s = (λ l. absurd l, λ (h, _). cc)

derivative_sound :
    (c : ℕ) (r : Regex) (s : List ℕ) → Language (derivative c r) s → Language r (c ∷ s)
unfolding derivative
derivative_sound c nothing s l = l
derivative_sound c empty s l = absurd l
derivative_sound c (class p) s l =
    let (h, e) = (guarded_iff (p c) empty s).0 l in (c, ap (λ (t : List ℕ). c ∷ t) e, h)
derivative_sound c (seq r q) s (inl (a, b, e, l, k)) =
    (c ∷ a, b, ap (λ (t : List ℕ). c ∷ t) e, derivative_sound c r a l, k)
derivative_sound c (seq r q) s (inr g) =
    let (h, k) = (guarded_iff (nullable r) (derivative c q) s).0 g in
    ([], c ∷ s, refl, nullable_sound r h, derivative_sound c q s k)
derivative_sound c (alt r q) s (inl l) = inl (derivative_sound c r s l)
derivative_sound c (alt r q) s (inr l) = inr (derivative_sound c q s l)
derivative_sound c (star r) s (a, b, e, l, k) =
    more c a b (derivative_sound c r a l) k (ap (λ (t : List ℕ). c ∷ t) e)

derivative_complete :
    (c : ℕ) (r : Regex) (s : List ℕ) → Language r (c ∷ s) → Language (derivative c r) s
unfolding derivative
derivative_complete c nothing s l = l
derivative_complete c empty s l = cc
derivative_complete c (class p) s (d, e, h) =
    let (same, rest) = cons_injective e in
    (guarded_iff (p c) empty s).1 (subst (λ (x : ℕ). p x ≡ true) (sym same) h, rest)
derivative_complete c (seq r q) s ([], b, e, l, k) = inr (
    (guarded_iff (nullable r) (derivative c q) s).1
      (nullable_complete r l, derivative_complete c q s (subst (Language q) (sym e) k)))
derivative_complete c (seq r q) s (d ∷ a, b, e, l, k) =
    let (same, rest) = cons_injective e in
    inl (
      a,
      b,
      rest,
      derivative_complete c r a (subst (λ (x : ℕ). Language r (x ∷ a)) (sym same) l),
      k,
    )
derivative_complete c (alt r q) s (inl l) = inl (derivative_complete c r s l)
derivative_complete c (alt r q) s (inr l) = inr (derivative_complete c q s l)
derivative_complete c (star r) s (more d a b l k e) =
    let (same, rest) = cons_injective e in
    (a, b, rest, derivative_complete c r a (subst (λ (x : ℕ). Language r (x ∷ a)) (sym same) l), k)

pub match_string_iff : (r : Regex) (s : List ℕ) → (match_string r s ≡ true) ↔ Language r s
unfolding match_string
match_string_iff r [] = (nullable_sound r, nullable_complete r)
match_string_iff r (c ∷ s) = (
  λ h. derivative_sound c r s ((match_string_iff (derivative c r) s).0 h),
  λ l. (match_string_iff (derivative c r) s).1 (derivative_complete c r s l),
)
