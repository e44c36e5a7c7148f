-- ===== src/Logger.antt =====
-- observability/logger/logger.go: the level and the attributes of a logger, and logutil/struct.go.
-- log/slog and encoding/json are parameters.
use Prim.Native.String.{◌++◌}
use aeternixth_go_lib.Prelude.{
  ℕ, String, List, [], ◌∷◌, codes, codes_eq, if◌then◌else◌, ◌||◌, Bool, ◌⊎◌, inl, inr, Option, none,
  some, str_eq,
}
use aeternixth_go_lib.Prelude.Text.{trim_space, to_lower}

pub data Level : Type 0 where
  level_debug level_info level_warn level_error : Level

module _ (unicode_lower : ℕ → ℕ) where
  abbrev is_level : String → List ℕ → Bool
  is_level name s = codes_eq s (codes name)

  abbrev level_of : List ℕ → Level
  level_of s =
      if is_level "debug" s
      then level_debug
      else if is_level "warn" s || is_level "warning" s
      then level_warn
      else if is_level "error" s
      then level_error
      else level_info

  -- `parseLevel`
  unfoldable pub parse_level : List ℕ → Level
  unfolding trim_space to_lower codes_eq
  parse_level s = level_of (to_lower unicode_lower (trim_space s))

-- An attribute of a record, with its key and its value; slog drops the empty one.
pub record Attr (Any : Type 0) : Type 0 where
  pub key : String
  pub val : Option Any

-- The writer, `os.Stderr` for nil, and the options of the JSON handler.
pub record Handler (Writer Any : Type 0) : Type 0 where
  pub writer : Writer
  pub level : Level
  pub replace_attr : List String → Attr Any → Attr Any

module _ {Writer Any : Type 0} (unicode_lower : ℕ → ℕ) (stderr : Writer) where
  -- The function `ReplaceAttr`; `time` is `slog.TimeKey`.
  unfoldable pub drop_time : List String → Attr Any → Attr Any
  drop_time [] a = if str_eq a.key "time" then record { key = ""; val = none } else a
  drop_time (group ∷ groups) a = a

  -- `New`
  unfoldable pub new_logger : List ℕ → Option Writer → Handler Writer Any
  unfolding parse_level drop_time
  new_logger level w = record {
    writer = elim w [ some writer ↦ writer | none ↦ stderr ];
    level = parse_level unicode_lower level;
    replace_attr = drop_time;
  }

-- `Payloader.Marshal`, by what `json.Marshal` answers
unfoldable pub marshal : String ⊎ String → String
marshal (inl json) = json
marshal (inr err) = ""

-- `Payloader.Print`: the line that goes to standard output
unfoldable pub print_payload : String ⊎ String → String
unfolding marshal
print_payload answer = "PAYLOAD " ++ marshal answer
