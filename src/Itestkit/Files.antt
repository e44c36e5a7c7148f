-- ===== src/Itestkit/Files.antt =====
-- The file system that itestkit reads, and itestkit/internal/fileutil/sqlfiles.go. A path is a text
-- of code points; what `os.Stat`, `os.ReadDir`, `os.ReadFile` and `filepath.WalkDir` answer is a
-- parameter that does not change while a stack starts.
pub mod Paths
pub mod Collect
pub mod Walk
use aeternixth_go_lib.Prelude.{ℕ, Bool, String, List, ◌⊎◌}

pub data Stat : Type 0 where
  not_exist : Stat
  stat_error : String → Stat
  directory : Stat
  regular : Stat

pub record Entry : Type 0 where
  pub entry_name : List ℕ
  pub is_dir : Bool

-- What `filepath.WalkDir` visits: the path, the entry, and the path from the root of the walk.
pub record Visit : Type 0 where
  pub path : List ℕ
  pub entry : Entry
  pub rel : List ℕ

-- `unicode_lower` is Unicode's lower-case table beyond ASCII.
pub record FileSystem : Type 0 where
  pub stat : List ℕ → Stat
  pub read_dir : List ℕ → List Entry ⊎ String
  pub read_file : List ℕ → List ℕ ⊎ String
  pub walk_dir : List ℕ → List Visit ⊎ String
  pub unicode_lower : ℕ → ℕ
