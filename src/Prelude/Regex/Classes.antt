-- ===== src/Prelude/Regex/Classes.antt =====
-- The repetitions of a class of characters, `[…]+`, `[…]{0,n}` and `[…]{n}`, in terms of the
-- characters and of their number.
use Prim.Native.Nat.{ℕ, zero, suc, ◌<◌, ◌≤◌}
use mathlib.Core.Path.{◌≡◌, refl, ap, sym, subst, ◌∙◌}
use mathlib.Core.Logic.{◌↔◌, inl, inr}
use mathlib.Core.Bool.{Bool, true}
use mathlib.Core.List.{List, [], ◌∷◌, ◌++◌}
use native.Mathlib.Omega.{arith}
use aeternixth_go_lib.Prelude.Lists.{All, length}
use aeternixth_go_lib.Prelude.Regex.{
  Regex, class, seq, star, plus, at_most, repeat, Parts, done, more, Language, cons_injective,
}

module _ (p : ℕ → Bool) where
  abbrev pub Within : List ℕ → Type 0
  Within = All (λ c. p c ≡ true)

  pub first_of_class :
      (q : Regex) (s : List ℕ)
      → Language (seq (class p) q) s
      → (c : ℕ) × (b : List ℕ) × (s ≡ c ∷ b) × (p c ≡ true) × Language q b
  first_of_class q s (a, b, e, (c, single, h), k) =
      (c, b, e ∙ ap (λ (x : List ℕ). x ++ b) single, h, k)

  pub star_class-Within : {s : List ℕ} → Parts (Language (class p)) s → Within s
  star_class-Within done = tt
  star_class-Within {s} (more c a b (d, e, h) l eq) =
      let (same, rest) = cons_injective e in
      subst Within (sym (eq ∙ ap (λ (x : List ℕ). c ∷ x ++ b) rest))
        (subst (λ (x : ℕ). p x ≡ true) (sym same) h, star_class-Within l)

  pub Within-star_class : (s : List ℕ) → Within s → Parts (Language (class p)) s
  Within-star_class [] w = done
  Within-star_class (c ∷ s) (h, w) = more c [] s (c, refl, h) (Within-star_class s w) refl

  plus_class-Within : (s : List ℕ) → Language (plus (class p)) s → (0 < length s) × Within s
  plus_class-Within s l =
      let (c, b, e, h, k) = first_of_class (star (class p)) s l in
      subst (λ (x : List ℕ). (0 < length x) × Within x) (sym e)
        (omega arith, (h, star_class-Within k))

  Within-plus_class : (s : List ℕ) → (0 < length s) × Within s → Language (plus (class p)) s
  Within-plus_class [] (n, _) = absurd (omega arith)
  Within-plus_class (c ∷ s) (_, (h, w)) = (c ∷ [], s, refl, (c, refl, h), Within-star_class s w)

  -- `[…]+`
  pub plus_class_iff : (s : List ℕ) → Language (plus (class p)) s ↔ ((0 < length s) × Within s)
  plus_class_iff s = (plus_class-Within s, Within-plus_class s)

  at_most_class-Within :
      (n : ℕ) (s : List ℕ) → Language (at_most n (class p)) s → (length s ≤ n) × Within s
  at_most_class-Within zero s e = rw e (omega arith, tt)
  at_most_class-Within (suc n) s (inl e) = rw e (omega arith, tt)
  at_most_class-Within (suc n) s (inr l) =
      let (c, b, e, h, k) = first_of_class (at_most n (class p)) s l in
      let (short, w) = at_most_class-Within n b k in
      subst (λ (x : List ℕ). (length x ≤ suc n) × Within x) (sym e) (omega arith, (h, w))

  Within-at_most_class :
      (n : ℕ) (s : List ℕ) → (length s ≤ n) × Within s → Language (at_most n (class p)) s
  Within-at_most_class zero [] _ = refl
  Within-at_most_class zero (c ∷ s) (long, _) = absurd (omega arith)
  Within-at_most_class (suc n) [] _ = inl refl
  Within-at_most_class (suc n) (c ∷ s) (short, (h, w)) =
      inr (c ∷ [], s, refl, (c, refl, h), Within-at_most_class n s (omega arith, w))

  pub at_most_class_iff :
      (n : ℕ) (s : List ℕ) → Language (at_most n (class p)) s ↔ ((length s ≤ n) × Within s)
  at_most_class_iff n s = (at_most_class-Within n s, Within-at_most_class n s)

  repeat_class-Within :
      (n : ℕ) (s : List ℕ) → Language (repeat n (class p)) s → (length s ≡ n) × Within s
  repeat_class-Within zero s e = rw e (refl, tt)
  repeat_class-Within (suc n) s l =
      let (c, b, e, h, k) = first_of_class (repeat n (class p)) s l in
      let (long, w) = repeat_class-Within n b k in
      subst (λ (x : List ℕ). (length x ≡ suc n) × Within x) (sym e) (omega arith, (h, w))

  Within-repeat_class :
      (n : ℕ) (s : List ℕ) → (length s ≡ n) × Within s → Language (repeat n (class p)) s
  Within-repeat_class zero [] _ = refl
  Within-repeat_class zero (c ∷ s) (long, _) = absurd (omega arith)
  Within-repeat_class (suc n) [] (short, _) = absurd (omega arith)
  Within-repeat_class (suc n) (c ∷ s) (long, (h, w)) =
      (c ∷ [], s, refl, (c, refl, h), Within-repeat_class n s (omega arith, w))

  pub repeat_class_iff :
      (n : ℕ) (s : List ℕ) → Language (repeat n (class p)) s ↔ ((length s ≡ n) × Within s)
  repeat_class_iff n s = (repeat_class-Within n s, Within-repeat_class n s)
