-- ===== src/Errors/Language.antt =====
-- errors/translation.go: `ResolveLanguage`. `unicode_lower` is Unicode's lower-case table beyond
-- ASCII.
use aeternixth_go_lib.Prelude.{
  ℕ, String, List, [], ◌∷◌, ◌++◌, Option, none, some, ◌≡◌, ◌⊎◌, inl, inr, refl, codes, codes_eq,
  if◌then◌else◌, str_eq, eq_iff, arith, Bool-cases,
}
use aeternixth_go_lib.Prelude.Text.{trim_space, before, split, to_lower, Lacks, split-append}

abbrev pub default_language : String
default_language = "en"

abbrev pub supported_languages : List String
supported_languages = "en" ∷ "th" ∷ []

-- `supportedLanguages[lang]`, with the key that is equal to `lang`
unfoldable pub supported : List String → List ℕ → Option String
unfolding codes_eq
supported [] lang = none
supported (key ∷ keys) lang = if codes_eq (codes key) lang then some key else supported keys lang

abbrev pub or_lang : Option String → String → String
or_lang (some lang) rest = lang
or_lang none rest = rest

module _ (unicode_lower : ℕ → ℕ) where
  -- The body of the loop: the primary subtag of one tag.
  unfoldable pub primary_subtag : List ℕ → List ℕ
  unfolding trim_space before to_lower
  primary_subtag tag =
      to_lower unicode_lower (trim_space (before b'-' (trim_space (before b';' tag))))

  unfoldable pub resolve_tags : List (List ℕ) → String
  unfolding primary_subtag supported
  resolve_tags [] = default_language
  resolve_tags (tag ∷ tags) = elim (supported supported_languages (primary_subtag tag)) [
    | some lang ↦ lang
    | none ↦ resolve_tags tags
  ]

  unfoldable pub resolve_language : String → String
  unfolding resolve_tags split
  resolve_language accept =
      if str_eq accept "" then default_language else resolve_tags (split b',' (codes accept))

  supported_sound :
      (lang : List ℕ) {key : String}
      → supported supported_languages lang ≡ some key
      → (key ≡ "en") ⊎ (key ≡ "th")
  unfolding supported
  supported_sound lang h = ground arith

  resolve_tags_sound :
      (tags : List (List ℕ)) → (resolve_tags tags ≡ "en") ⊎ (resolve_tags tags ≡ "th")
  unfolding resolve_tags
  resolve_tags_sound [] = inl refl
  resolve_tags_sound (tag ∷ tags) =
      grind (arith, resolve_tags_sound tags, supported_sound (primary_subtag tag))

  -- The resolved language is always en or th.
  pub resolve_language_sound :
      (accept : String) → (resolve_language accept ≡ "en") ⊎ (resolve_language accept ≡ "th")
  unfolding resolve_language
  resolve_language_sound accept = grind (arith, resolve_tags_sound (split b',' (codes accept)))

  resolve_language-split :
      (accept : String) → resolve_language accept ≡ resolve_tags (split b',' (codes accept))
  unfolding resolve_language
  resolve_language-split accept = elim (Bool-cases (str_eq accept "")) [
    | inl empty ↦ rw ((eq_iff accept "").0 empty) refl
    | inr given ↦ rw given
  ]

  -- The tag before the first comma decides the language where it is supported, and else the rest
  -- of the header.
  pub resolve_language_first :
      (accept rest : String) (tag : List ℕ)
      → Lacks b',' tag
      → codes accept ≡ tag ++ b',' ∷ codes rest
      → resolve_language accept
        ≡ or_lang (supported supported_languages (primary_subtag tag)) (resolve_language rest)
  unfolding resolve_tags
  resolve_language_first accept rest tag h e =
      rw (resolve_language-split, e, split-append b',' tag (codes rest) h)
        (ground (arith, resolve_language-split rest))
