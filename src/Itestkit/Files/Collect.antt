-- ===== src/Itestkit/Files/Collect.antt =====
-- itestkit/internal/fileutil/sqlfiles.go: `CollectSQLFiles` and `ReadFile`.
pub mod Laws
use aeternixth_go_lib.Prelude.{
  ℕ, Bool, true, false, ◌||◌, ◌&&◌, not, String, List, [], ◌∷◌, ◌++◌, ◌⊎◌, inl, inr, codes,
  if◌then◌else◌, map,
}
use aeternixth_go_lib.Prelude.Text.{to_lower}
use aeternixth_go_lib.Prelude.Sorting.{sort_stable}
use aeternixth_go_lib.Itestkit.Files.{
  FileSystem, Stat, not_exist, stat_error, directory, regular, Entry,
}
use aeternixth_go_lib.Itestkit.Files.Paths.{has_prefix, has_suffix, join, base}

pub data FileError : Type 0 where
  path_missing : List ℕ → FileError
  stat_failed read_dir_failed read_failed : List ℕ → String → FileError

-- The files found and the paths that do not exist.
pub record Found : Type 0 where
  pub files : List (List ℕ)
  pub missing : List (List ℕ)

abbrev pub nothing_found : Found
nothing_found = record { files = []; missing = [] }

abbrev with_files : List (List ℕ) → Found ⊎ FileError → Found ⊎ FileError
with_files more (inl found) = inl (record found { files = more ++ found.files })
with_files more (inr err) = inr err

abbrev with_missing : List ℕ → Found ⊎ FileError → Found ⊎ FileError
with_missing p (inl found) = inl (record found { missing = p ∷ found.missing })
with_missing p (inr err) = inr err

module _ (fs : FileSystem) where
  unfoldable pub is_sql : List ℕ → Bool
  unfolding has_suffix to_lower
  is_sql p = has_suffix (to_lower fs.unicode_lower p) (codes ".sql")

  -- The names of a directory that the inner loop keeps.
  unfoldable pub sql_entries : List Entry → List (List ℕ)
  unfolding is_sql has_prefix
  sql_entries [] = []
  sql_entries (e ∷ entries) =
      let rest = sql_entries entries in
      if has_prefix e.entry_name (codes ".") || e.is_dir || not (is_sql e.entry_name)
      then rest
      else e.entry_name ∷ rest

  -- The files of one directory: `local`, sorted
  unfoldable pub directory_files : List ℕ → List Entry → List (List ℕ)
  unfolding sql_entries join sort_stable
  directory_files p entries = sort_stable (λ f. f) (map (join p) (sql_entries entries))

  -- The loop over the paths.
  unfoldable pub gather : Bool → List (List ℕ) → Found ⊎ FileError
  unfolding directory_files
  gather strict [] = inl nothing_found
  gather strict (p ∷ paths) = elim (fs.stat p) [
    | not_exist ↦ elim strict [
      | true ↦ inr (path_missing p)
      | false ↦ with_missing p (gather strict paths)
    ]
    | stat_error err ↦ inr (stat_failed p err)
    | regular ↦ with_files (if is_sql p then p ∷ [] else []) (gather strict paths)
    | directory ↦ elim (fs.read_dir p) [
      | inr err ↦ inr (read_dir_failed p err)
      | inl entries ↦ with_files (directory_files p entries) (gather strict paths)
    ]
  ]

  abbrev pub sorted_by_base : Found ⊎ FileError → Found ⊎ FileError
  sorted_by_base (inl found) = inl (record found { files = sort_stable base found.files })
  sorted_by_base (inr err) = inr err

  -- `CollectSQLFiles`
  unfoldable pub collect_sql_files : Bool → List (List ℕ) → Found ⊎ FileError
  unfolding gather sort_stable base
  collect_sql_files strict paths = sorted_by_base (gather strict paths)

  -- `ReadFile`
  unfoldable pub read_file : List ℕ → List ℕ ⊎ FileError
  read_file path = elim (fs.read_file path) [
    | inl text ↦ inl text
    | inr err ↦ inr (read_failed path err)
  ]
