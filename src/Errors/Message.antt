-- ===== src/Errors/Message.antt =====
-- errors/translation.go: `RegisterTranslations` and `ResolveMessage`. `fmt_value` is `fmt.Sprintf`
-- with the verb %v.
use Prim.Native.String.{◌++◌, count}
use aeternixth_go_lib.Prelude.{
  ℕ, zero, suc, ◌-◌, Bool, true, false, ◌&&◌, String, List, [], ◌∷◌, none, some, code, lookup,
  insert_all, str_eq, ◌==◌, if◌then◌else◌,
}
use aeternixth_go_lib.Errors.{Registries, AppError, Details, nil, fields, other}
use aeternixth_go_lib.Errors.Language.{default_language}

unfoldable pub register_translations :
    List (String × List (String × String)) → Registries → Registries
register_translations t r = record r { translations = insert_all t r.translations }

unfoldable pub has_prefix : String → String → Bool
has_prefix String.[] s = true
has_prefix (String.◌∷◌ c p) String.[] = false
has_prefix (String.◌∷◌ c p) (String.◌∷◌ d s) = code c == code d && has_prefix p s

-- `strings.ReplaceAll` for a text `old` that is not empty; the number is what is left to skip of
-- an occurrence.
unfoldable pub replace_from : ℕ → String → String → String → String
unfolding has_prefix
replace_from skip old new String.[] = String.[]
replace_from (suc skip) old new (String.◌∷◌ c s) = replace_from skip old new s
replace_from zero old new (String.◌∷◌ c s) = elim (has_prefix old (String.◌∷◌ c s)) [
  | true ↦ new ++ replace_from (count old - 1) old new s
  | false ↦ String.◌∷◌ c (replace_from 0 old new s)
]

unfoldable pub replace_all : String → String → String → String
unfolding replace_from
replace_all s old new = replace_from 0 old new s

abbrev pub placeholder : String → String
placeholder k = "{" ++ k ++ "}"

-- The template of the code in the language, or in the default language; "" if there is none.
unfoldable pub translated : Registries → String → String → String
translated r code lang = elim (lookup code r.translations) [
  | none ↦ ""
  | some langs ↦ elim (lookup lang langs) [
    | some message ↦ message
    | none ↦ elim (lookup default_language langs) [ some fallback ↦ fallback | none ↦ "" ]
  ]
]

unfoldable pub first_given : String → String → String → String
first_given a b c = if str_eq a "" then if str_eq b "" then c else b else a

module _ {Any : Type 0} (fmt_value : Any → String) where
  -- The last loop, over the entries of the details in the order of the range.
  unfoldable pub fill : List (String × Any) → String → String
  unfolding replace_all
  fill [] msg = msg
  fill ((k, v) ∷ m) msg = fill m (replace_all msg (placeholder k) (fmt_value v))

  unfoldable pub fill_details : Details Any → String → String
  unfolding fill
  fill_details (fields m) msg = fill m msg
  fill_details nil msg = msg
  fill_details (other v) msg = msg

  unfoldable pub resolve_message : Registries → AppError Any → String → String
  unfolding translated first_given fill_details
  resolve_message r e lang =
      fill_details e.details (first_given (translated r e.code lang) e.message e.code)
