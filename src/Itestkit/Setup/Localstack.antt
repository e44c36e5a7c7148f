-- ===== src/Itestkit/Setup/Localstack.antt =====
-- The init scripts of itestkit/localstack.go. Log lines about missing paths are left out.
use aeternixth_go_lib.Prelude.{
  ℕ, Bool, ◌||◌, not, String, List, [], ◌∷◌, ◌++◌, codes, lookup, map, if◌then◌else◌, ◌⊎◌, inl, inr,
  ◌==◌,
}
use aeternixth_go_lib.Prelude.Sorting.{sort_stable}
use aeternixth_go_lib.Itestkit.Options.{LocalStackOptions}
use aeternixth_go_lib.Itestkit.Services.Localstack.{LocalStackResource}
use aeternixth_go_lib.Itestkit.Files.{FileSystem, not_exist, stat_error, directory, regular, Entry}
use aeternixth_go_lib.Itestkit.Files.Paths.{has_prefix, has_suffix, join, base}
use aeternixth_go_lib.Itestkit.Setup.Sql.{labelled, instance_of, non_empty}
use aeternixth_go_lib.Itestkit.Outside.{
  Outside, copy_file, exec_file, Failure, outside, message, exited, wrap, Act, pure, fail, ◌>>=◌,
  ◌>>◌, or_wrap, call, for_each,
}

abbrev more_scripts : List (List ℕ) → List (List ℕ) ⊎ Failure → List (List ℕ) ⊎ Failure
more_scripts first (inl rest) = inl (first ++ rest)
more_scripts first (inr err) = inr err

abbrev pub script_label : String → List ℕ → List ℕ
script_label name script = codes "run " ++ (labelled "localstack[" name "] init script " ++ script)

abbrev pub from_answer : {A : Type 0} → A ⊎ String → Act A
from_answer (inl a) = pure a
from_answer (inr err) = fail (outside err)

abbrev pub from_result : {A : Type 0} → A ⊎ Failure → Act A
from_result (inl a) = pure a
from_result (inr err) = fail err

module _ (fs : FileSystem) where
  -- The names of a directory that the inner loop keeps.
  unfoldable pub script_entries : List Entry → List (List ℕ)
  unfolding has_prefix has_suffix
  script_entries [] = []
  script_entries (e ∷ entries) =
      let rest = script_entries entries in
      if e.is_dir
        || has_prefix e.entry_name (codes ".")
        || not (has_suffix e.entry_name (codes ".sh"))
      then rest
      else e.entry_name ∷ rest

  -- `expandLocalStackScripts`
  unfoldable pub expand_scripts : Bool → String → List String → List (List ℕ) ⊎ Failure
  unfolding script_entries sort_stable join
  expand_scripts strict name [] = inl []
  expand_scripts strict name (p ∷ paths) = elim (fs.stat (codes p)) [
    | not_exist ↦
        if strict
        then inr (
            message (
              codes "validate "
              ++ (labelled "localstack[" name "] init script path "
                  ++ (codes p ++ codes ": does not exist"))))
        else expand_scripts strict name paths
    | stat_error err ↦ inr (wrap (codes "stat " ++ codes p) (outside err))
    | regular ↦ more_scripts (codes p ∷ []) (expand_scripts strict name paths)
    | directory ↦ elim (fs.read_dir (codes p)) [
      | inr err ↦ inr (wrap (codes "read dir " ++ codes p) (outside err))
      | inl entries ↦
          more_scripts (sort_stable (λ f. f) (map (join (codes p)) (script_entries entries)))
            (expand_scripts strict name paths)
    ]
  ]

module _ (fs : FileSystem) (out : Outside) where
  -- The check of the exit code.
  abbrev pub check_exit : List ℕ → Act (Unit {0})
  check_exit label h =
      if (out.exit_code h).0 == 0
      then pure tt h
      else fail (exited label (out.exit_code h).0 (out.exit_code h).1) h

  -- `execLocalStackScript`
  unfoldable pub exec_script : ℕ → String → List ℕ → Act (Unit {0})
  unfolding call base
  exec_script container name script =
      let label = script_label name script in
      let target = codes "/tmp/itestkit-init/" ++ base script in
      or_wrap label (from_answer (fs.read_file script)) >>= λ content.
      or_wrap (label ++ codes ": copy") (call out (copy_file container content target))
      >> (or_wrap label (call out (exec_file container target)) >> check_exit label)

  -- `runLocalStackInitScripts`
  unfoldable pub run_init_scripts :
      List (String × LocalStackOptions) → List (String × LocalStackResource) → Act (Unit {0})
  unfolding exec_script expand_scripts for_each lookup
  run_init_scripts opts res =
      for_each
        (λ (name, cfg). instance_of res name (non_empty cfg.init_scripts) (λ r.
          from_result (expand_scripts fs cfg.strict_path name cfg.init_scripts) >>= λ scripts.
          for_each (exec_script r.container name) scripts))
        opts
