-- ===== src/Itestkit/Files/Walk.antt =====
-- `collectFilesForContainer` of itestkit/httpmock.go: the files of the paths with their places in
-- the container. Log lines about missing paths are left out.
use Prim.Native.String.{◌++◌}
use aeternixth_go_lib.Prelude
use aeternixth_go_lib.Prelude.{
  ℕ, Bool, true, false, ◌||◌, String, List, [], ◌∷◌, codes, if◌then◌else◌, ◌⊎◌, inl, inr,
}
use aeternixth_go_lib.Itestkit.Files.{FileSystem, Visit, not_exist, stat_error, directory, regular}
use aeternixth_go_lib.Itestkit.Files.Paths.{has_prefix, join, base}

abbrev more_files :
    List (List ℕ × List ℕ) → List (List ℕ × List ℕ) ⊎ String → List (List ℕ × List ℕ) ⊎ String
more_files first (inl rest) = inl (Prelude.◌++◌ first rest)
more_files first (inr err) = inr err

-- What the walk's callback adds to the result: neither directories nor hidden files.
unfoldable pub visited_files : List ℕ → List Visit → List (List ℕ × List ℕ)
unfolding has_prefix join
visited_files target [] = []
visited_files target (v ∷ visits) =
    let rest = visited_files target visits in
    if v.entry.is_dir || has_prefix v.entry.entry_name (codes ".")
    then rest
    else (v.path, join target v.rel) ∷ rest

module _ (fs : FileSystem) where
  -- `collectFilesForContainer`
  unfoldable pub collect_files_for_container :
      List String → String → Bool → String → List (List ℕ × List ℕ) ⊎ String
  unfolding visited_files join base
  collect_files_for_container [] target strict label = inl []
  collect_files_for_container (p ∷ paths) target strict label =
      let rest = collect_files_for_container paths target strict label in
      elim (fs.stat (codes p)) [
        | not_exist ↦
            if strict
            then inr ("validate " ++ (label ++ (" path " ++ (p ++ ": does not exist"))))
            else rest
        | stat_error err ↦ inr ("validate " ++ (label ++ (" path " ++ (p ++ (": " ++ err)))))
        | regular ↦ more_files ((codes p, join (codes target) (base (codes p))) ∷ []) rest
        | directory ↦ elim (fs.walk_dir (codes p)) [
          | inr err ↦ inr ("walk " ++ (p ++ (": " ++ err)))
          | inl visits ↦ more_files (visited_files (codes target) visits) rest
        ]
      ]
