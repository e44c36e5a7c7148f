-- ===== src/Prelude/Maps.antt =====
-- Go maps as association lists. The order of a list is the order in which one run of the program
-- ranges over the map; a map holds each key once, which `Distinct` states.
use Prim.Native.String.{String}
use mathlib.Core.Path.{◌≡◌, refl}
use mathlib.Core.Option.{Option, none, some}
use mathlib.Core.List.{List, [], ◌∷◌}
use native.Mathlib.Omega.{arith}
use text.Mathlib.Text.{◌==◌}
use text.Mathlib.TextEquality.{eq_iff}
use aeternixth_go_lib.Prelude.Tests.{if◌then◌else◌}

module _ {ℓ} {V : Type ℓ} where
  -- `entries[key]`
  unfoldable pub lookup : String → List (String × V) → Option V
  lookup key [] = none
  lookup key ((name, val) ∷ entries) = if name == key then some val else lookup key entries

  -- `entries[key] = val`, where a new key comes last
  unfoldable pub insert : String → V → List (String × V) → List (String × V)
  insert key val [] = (key, val) ∷ []
  insert key val ((name, old) ∷ entries) =
      if name == key then (name, val) ∷ entries else (name, old) ∷ insert key val entries

  -- `for k, v := range from { into[k] = v }`
  unfoldable pub insert_all : List (String × V) → List (String × V) → List (String × V)
  insert_all [] into = into
  insert_all ((k, v) ∷ from) into = insert_all from (insert k v into)

  -- No key stands twice.
  abbrev pub Distinct : List (String × V) → Type ℓ
  Distinct [] = Unit
  Distinct ((k, v) ∷ m) = (lookup k m ≡ none) × Distinct m

  pub lookup-insert :
      (written read : String) (val : V) (entries : List (String × V))
      → lookup read (insert written val entries)
        ≡ (if written == read then some val else lookup read entries)
  unfolding lookup insert
  lookup-insert written read val [] = refl
  lookup-insert written read val ((name, old) ∷ entries) = ground (
    arith,
    lookup-insert written read val entries,
    eq_iff name read,
    eq_iff name written,
    eq_iff written read,
  )

  abbrev pub or_else : Option V → Option V → Option V
  or_else (some v) o = some v
  or_else none o = o

  -- What was written is read back, and the rest is as before.
  pub lookup-insert_all :
      (from into : List (String × V)) (j : String)
      → Distinct from
      → lookup j (insert_all from into) ≡ or_else (lookup j from) (lookup j into)
  unfolding lookup insert_all
  lookup-insert_all [] into j d = refl
  lookup-insert_all ((k, v) ∷ from) into j (fresh, d) =
      ground
        (arith, lookup-insert_all from (insert k v into) j d, lookup-insert k j v into, eq_iff k j)

  -- `delete`
  unfoldable pub remove : String → List (String × V) → List (String × V)
  remove k [] = []
  remove k ((j, v) ∷ m) = if j == k then remove k m else (j, v) ∷ remove k m

  pub lookup-remove :
      (k j : String) (m : List (String × V))
      → lookup j (remove k m) ≡ (if k == j then none else lookup j m)
  unfolding lookup remove
  lookup-remove k j [] = ground arith
  lookup-remove k j ((i, w) ∷ m) =
      ground (arith, eq_iff k j, eq_iff i k, eq_iff i j, lookup-remove k j m)

  pub insert-Distinct :
      (k : String) (v : V) (m : List (String × V)) → Distinct m → Distinct (insert k v m)
  unfolding lookup insert
  insert-Distinct k v [] d = (refl, tt)
  insert-Distinct k v ((i, w) ∷ m) (fresh, d) =
      ground (arith, eq_iff i k, eq_iff k i, lookup-insert k i v m, insert-Distinct k v m d)

  pub remove-Distinct : (k : String) (m : List (String × V)) → Distinct m → Distinct (remove k m)
  unfolding remove
  remove-Distinct k [] d = tt
  remove-Distinct k ((i, w) ∷ m) (fresh, d) =
      ground (arith, lookup-remove k i m, remove-Distinct k m d)
