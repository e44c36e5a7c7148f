-- ===== src/Itestkit/Files/Collect/Laws.antt =====
-- What `CollectSQLFiles` promises (itestkit/internal/fileutil/sqlfiles.go), path by path.
use aeternixth_go_lib.Prelude.{
  ℕ, Bool, List, [], ◌∷◌, ◌++◌, Option, none, some, ◌≡◌, refl, ap, ◌⊎◌, inl, inr, arith,
  if◌then◌else◌,
}
use aeternixth_go_lib.Prelude.Sorting.{
  IsSorted, with_key, sort_stable, sort_stable-IsSorted, with_key-sort_stable,
}
use aeternixth_go_lib.Itestkit.Files.{FileSystem, not_exist, stat_error, directory, regular}
use aeternixth_go_lib.Itestkit.Files.Paths.{base}
use aeternixth_go_lib.Itestkit.Files.Collect.{
  Found, FileError, path_missing, stat_failed, read_dir_failed, is_sql, directory_files, gather,
  collect_sql_files, sorted_by_base,
}

module _ (fs : FileSystem) where
  -- What is wrong with a path, if anything.
  abbrev pub problem : Bool → List ℕ → Option FileError
  problem strict p = elim (fs.stat p) [
    | not_exist ↦ if strict then some (path_missing p) else none
    | stat_error err ↦ some (stat_failed p err)
    | regular ↦ none
    | directory ↦ elim (fs.read_dir p) [
      | inr err ↦ some (read_dir_failed p err)
      | inl entries ↦ none
    ]
  ]

  abbrev pub first_problem : Bool → List (List ℕ) → Option FileError
  first_problem strict [] = none
  first_problem strict (p ∷ paths) = elim (problem strict p) [
    | some err ↦ some err
    | none ↦ first_problem strict paths
  ]

  -- The SQL files of a path: itself, or those of the directory that it is.
  abbrev pub files_of : List ℕ → List (List ℕ)
  files_of p = elim (fs.stat p) [
    | not_exist ↦ []
    | stat_error err ↦ []
    | regular ↦ if is_sql fs p then p ∷ [] else []
    | directory ↦ elim (fs.read_dir p) [ inr err ↦ [] | inl entries ↦ directory_files fs p entries ]
  ]

  abbrev pub all_files : List (List ℕ) → List (List ℕ)
  all_files [] = []
  all_files (p ∷ paths) = files_of p ++ all_files paths

  abbrev pub all_missing : List (List ℕ) → List (List ℕ)
  all_missing [] = []
  all_missing (p ∷ paths) = elim (fs.stat p) [
    | not_exist ↦ p ∷ all_missing paths
    | stat_error err ↦ all_missing paths
    | regular ↦ all_missing paths
    | directory ↦ all_missing paths
  ]

  -- A loop over the paths that ends well, or in its first problem.
  abbrev gathered : Bool → List (List ℕ) → Found ⊎ FileError
  gathered strict paths = elim (first_problem strict paths) [
    | some err ↦ inr err
    | none ↦ inl (record { files = all_files paths; missing = all_missing paths })
  ]

  gather_lem :
      (strict : Bool) (paths : List (List ℕ)) → gather fs strict paths ≡ gathered strict paths
  unfolding gather
  gather_lem strict [] = refl
  gather_lem strict (p ∷ paths) = ground (arith, gather_lem strict paths)

  gather-some :
      (strict : Bool) (paths : List (List ℕ)) (err : FileError)
      → first_problem strict paths ≡ some err
      → gather fs strict paths ≡ inr err
  gather-some strict paths err e = ground (arith, gather_lem strict paths)

  gather-none :
      (strict : Bool) (paths : List (List ℕ))
      → first_problem strict paths ≡ none
      → gather fs strict paths
        ≡ inl (record { files = all_files paths; missing = all_missing paths })
  gather-none strict paths e = ground (arith, gather_lem strict paths)

  -- Either a path has a problem, and the first one is the error; or the files are those of all the
  -- paths, sorted.
  abbrev pub Collected : Bool → List (List ℕ) → Option FileError → Type 0
  Collected strict paths (some err) = collect_sql_files fs strict paths ≡ inr err
  Collected strict paths none =
      (found : Found) × (collect_sql_files fs strict paths ≡ inl found)
      × IsSorted base found.files
      × ((b : List ℕ) → with_key base b found.files ≡ with_key base b (all_files paths))
      × (found.missing ≡ all_missing paths)

  -- Where a path has a problem (it cannot be read, or it is missing and the paths are strict), the
  -- first such path is the error; otherwise the files are those of all the paths, each path's own
  -- in order, sorted by their base names, where equal names keep the order of the paths, and the
  -- missing paths are listed in order.
  pub collect_sql_files_lem :
      (strict : Bool) (paths : List (List ℕ)) → Collected strict paths (first_problem strict paths)
  unfolding collect_sql_files
  collect_sql_files_lem strict paths = go (first_problem strict paths) refl
    where
      go :
          (verdict : Option FileError)
          → first_problem strict paths ≡ verdict
          → Collected strict paths verdict
      go (some err) e = ap (sorted_by_base fs) (gather-some strict paths err e)
      go none e = (
        record { files = sort_stable base (all_files paths); missing = all_missing paths },
        ap (sorted_by_base fs) (gather-none strict paths e),
        sort_stable-IsSorted base (all_files paths),
        λ b. with_key-sort_stable base b (all_files paths),
        refl,
      )
