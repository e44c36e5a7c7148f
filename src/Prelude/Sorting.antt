-- ===== src/Prelude/Sorting.antt =====
-- The order of Go's strings over code points, and the stable sort by a key. `sort.SliceStable` has
-- one result, which an insertion sort gives; so has `sort.Strings`, since equal strings are the same.
use Prim.Native.Nat.{ℕ}
use mathlib.Core.Path.{◌≡◌, refl}
use mathlib.Core.Bool.{Bool, true, false}
use mathlib.Core.List.{List, [], ◌∷◌}
use native.Mathlib.Omega.{arith}
use aeternixth_go_lib.Prelude.Tests.{◌==◌, ltb, if◌then◌else◌}
use aeternixth_go_lib.Prelude.Lists.{All, codes_eq, codes_eq_iff}

-- `s <= t` of Go's strings
unfoldable pub leb_text : List ℕ → List ℕ → Bool
leb_text [] t = true
leb_text (a ∷ s) [] = false
leb_text (a ∷ s) (b ∷ t) = if a == b then leb_text s t else ltb a b

pub leb_text_total : (s t : List ℕ) → leb_text s t ≡ false → leb_text t s ≡ true
unfolding leb_text
leb_text_total [] t h = ground arith
leb_text_total (a ∷ s) [] h = refl
leb_text_total (a ∷ s) (b ∷ t) h = ground (arith, leb_text_total s t)

pub leb_text_trans :
    (s t u : List ℕ) → leb_text s t ≡ true → leb_text t u ≡ true → leb_text s u ≡ true
unfolding leb_text
leb_text_trans [] t u h k = refl
leb_text_trans (a ∷ s) [] u h k = ground arith
leb_text_trans (a ∷ s) (b ∷ t) [] h k = ground arith
leb_text_trans (a ∷ s) (b ∷ t) (c ∷ u) h k = ground (arith, leb_text_trans s t u)

module _ {A : Type 0} (key : A → List ℕ) where
  -- The key is at most those of all elements of the list.
  abbrev pub AtMost : List ℕ → List A → Type 0
  AtMost b = All (λ x. leb_text b (key x) ≡ true)

  abbrev pub IsSorted : List A → Type 0
  IsSorted [] = Unit
  IsSorted (x ∷ xs) = AtMost (key x) xs × IsSorted xs

  -- The elements with the key, in their order.
  abbrev pub with_key : List ℕ → List A → List A
  with_key b [] = []
  with_key b (x ∷ xs) = if codes_eq (key x) b then x ∷ with_key b xs else with_key b xs

  unfoldable pub insert_sorted : A → List A → List A
  insert_sorted x [] = x ∷ []
  insert_sorted x (y ∷ ys) = if leb_text (key x) (key y) then x ∷ y ∷ ys else y ∷ insert_sorted x ys

  unfoldable pub sort_stable : List A → List A
  unfolding insert_sorted
  sort_stable [] = []
  sort_stable (x ∷ xs) = insert_sorted x (sort_stable xs)

  AtMost-trans : (a b : List ℕ) (xs : List A) → leb_text a b ≡ true → AtMost b xs → AtMost a xs
  AtMost-trans a b [] h k = tt
  AtMost-trans a b (x ∷ xs) h (p, k) = (leb_text_trans a b (key x) h p, AtMost-trans a b xs h k)

  insert_sorted-AtMost :
      (b : List ℕ) (x : A) (ys : List A)
      → leb_text b (key x) ≡ true
      → AtMost b ys
      → AtMost b (insert_sorted x ys)
  unfolding insert_sorted
  insert_sorted-AtMost b x [] p k = (p, tt)
  insert_sorted-AtMost b x (y ∷ ys) p (q, k) = ground (arith, insert_sorted-AtMost b x ys p k)

  insert_sorted-IsSorted : (x : A) (ys : List A) → IsSorted ys → IsSorted (insert_sorted x ys)
  unfolding insert_sorted
  insert_sorted-IsSorted x [] s = (tt, tt)
  insert_sorted-IsSorted x (y ∷ ys) (m, s) = ground (
    arith,
    leb_text_total (key x) (key y),
    AtMost-trans (key x) (key y) ys,
    insert_sorted-AtMost (key y) x ys,
    insert_sorted-IsSorted x ys s,
  )

  pub sort_stable-IsSorted : (xs : List A) → IsSorted (sort_stable xs)
  unfolding sort_stable
  sort_stable-IsSorted [] = tt
  sort_stable-IsSorted (x ∷ xs) =
      insert_sorted-IsSorted x (sort_stable xs) (sort_stable-IsSorted xs)

  leb_text_refl : (s : List ℕ) → leb_text s s ≡ true
  unfolding leb_text
  leb_text_refl [] = refl
  leb_text_refl (a ∷ s) = ground (arith, leb_text_refl s)

  with_key-insert_sorted :
      (b : List ℕ) (x : A) (ys : List A)
      → with_key b (insert_sorted x ys)
        ≡ (if codes_eq (key x) b then x ∷ with_key b ys else with_key b ys)
  unfolding insert_sorted
  with_key-insert_sorted b x [] = refl
  with_key-insert_sorted b x (y ∷ ys) = ground (
    arith,
    with_key-insert_sorted b x ys,
    codes_eq_iff (key x) b,
    codes_eq_iff (key y) b,
    leb_text_refl (key x),
  )

  -- For each key the elements that have it are the same as before, in the same order.
  pub with_key-sort_stable :
      (b : List ℕ) (xs : List A) → with_key b (sort_stable xs) ≡ with_key b xs
  unfolding sort_stable
  with_key-sort_stable b [] = refl
  with_key-sort_stable b (x ∷ xs) =
      ground (arith, with_key-insert_sorted b x (sort_stable xs), with_key-sort_stable b xs)
