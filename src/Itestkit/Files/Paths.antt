-- ===== src/Itestkit/Files/Paths.antt =====
-- The functions of Go's packages `path/filepath` (on Unix) and `strings` that itestkit calls on paths.
use aeternixth_go_lib.Prelude.{
  ℕ, Bool, true, false, ◌&&◌, ◌==◌, List, [], ◌∷◌, ◌++◌, if◌then◌else◌, codes_eq, reverse,
}
use aeternixth_go_lib.Prelude.Text.{split, before}

-- `strings.HasPrefix`
unfoldable pub has_prefix : List ℕ → List ℕ → Bool
has_prefix s [] = true
has_prefix [] (p ∷ prefix) = false
has_prefix (c ∷ s) (p ∷ prefix) = c == p && has_prefix s prefix

-- `strings.HasSuffix`
unfoldable pub has_suffix : List ℕ → List ℕ → Bool
unfolding has_prefix
has_suffix s suffix = has_prefix (reverse s) (reverse suffix)

abbrev slash : ℕ
slash = b'/'

abbrev dot : List ℕ
dot = b'.' ∷ []

abbrev dot_dot : List ℕ
dot_dot = b'.' ∷ b'.' ∷ []

-- What `..` does to the elements so far, the last one first.
abbrev parent : Bool → List (List ℕ) → List (List ℕ)
parent rooted [] = if rooted then [] else dot_dot ∷ []
parent rooted (e ∷ out) = if codes_eq e dot_dot then dot_dot ∷ e ∷ out else out

-- The elements of a path, one after the other onto those of the result, the last one first.
unfoldable pub clean_elements : Bool → List (List ℕ) → List (List ℕ) → List (List ℕ)
clean_elements rooted out [] = out
clean_elements rooted out ([] ∷ elements) = clean_elements rooted out elements
clean_elements rooted out ((c ∷ e) ∷ elements) =
    clean_elements rooted
      (if codes_eq (c ∷ e) dot
        then out
        else if codes_eq (c ∷ e) dot_dot
        then parent rooted out
        else (c ∷ e) ∷ out)
      elements

unfoldable pub join_slash : List (List ℕ) → List ℕ
join_slash [] = []
join_slash (e ∷ []) = e
join_slash (e ∷ f ∷ elements) = e ++ slash ∷ join_slash (f ∷ elements)

abbrev is_rooted : List ℕ → Bool
is_rooted [] = false
is_rooted (c ∷ s) = c == slash

abbrev or_dot : List ℕ → List ℕ
or_dot [] = dot
or_dot (c ∷ s) = c ∷ s

-- `filepath.Clean`
unfoldable pub clean : List ℕ → List ℕ
unfolding clean_elements join_slash split
clean s =
    let text = join_slash (reverse (clean_elements (is_rooted s) [] (split slash s))) in
    if is_rooted s then slash ∷ text else or_dot text

-- `filepath.Join` of two elements
unfoldable pub join : List ℕ → List ℕ → List ℕ
unfolding clean
join [] [] = []
join [] (c ∷ s) = clean (c ∷ s)
join (d ∷ t) [] = clean (d ∷ t)
join (d ∷ t) (c ∷ s) = clean ((d ∷ t) ++ slash ∷ c ∷ s)

unfoldable pub drop_slashes : List ℕ → List ℕ
drop_slashes [] = []
drop_slashes (c ∷ s) = if c == slash then drop_slashes s else c ∷ s

abbrev last_element : List ℕ → List ℕ
last_element [] = slash ∷ []
last_element (c ∷ backwards) = reverse (before slash (c ∷ backwards))

-- `filepath.Base`
unfoldable pub base : List ℕ → List ℕ
unfolding drop_slashes before
base [] = dot
base (c ∷ s) = last_element (drop_slashes (reverse (c ∷ s)))
