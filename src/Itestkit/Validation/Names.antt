-- ===== src/Itestkit/Validation/Names.antt =====
-- itestkit/validation.go: which names and which mocks the loops over the services accept.
use aeternixth_go_lib.Prelude.{
  ℕ, ◌≤◌, true, String, List, [], ◌∷◌, none, ◌≡◌, ◌↔◌, refl, arith, eq_iff, codes, ◌⊎◌, All,
}
use aeternixth_go_lib.Prelude.Regex.{star, class, match_string_iff, Language}
use aeternixth_go_lib.Prelude.Regex.Classes.{
  Within, first_of_class, star_class-Within, Within-star_class,
}
use aeternixth_go_lib.Itestkit.Options.{HttpMockOptions, HttpExpectation, mock_server, wire_mock}
use aeternixth_go_lib.Itestkit.Validation.{
  is_lower, is_name_rune, instance_name_regex, name_matches, check_names, check_mock, check_mocks,
  provider_of,
}

abbrev pub IsLower : ℕ → Type 0
IsLower c = (b'a' ≤ c) × (c ≤ b'z')

abbrev pub IsNameRune : ℕ → Type 0
IsNameRune c = IsLower c ⊎ (((b'0' ≤ c) × (c ≤ b'9')) ⊎ ((c ≡ b'_') ⊎ (c ≡ b'-')))

-- A small letter, and after it small letters, digits, underscores and dashes.
abbrev pub IsName : List ℕ → Type 0
IsName s = (c : ℕ) × (rest : List ℕ) × (s ≡ c ∷ rest) × IsLower c × All IsNameRune rest

is_lower_iff : (c : ℕ) → (is_lower c ≡ true) ↔ IsLower c
is_lower_iff c = ground arith

is_name_rune_iff : (c : ℕ) → (is_name_rune c ≡ true) ↔ IsNameRune c
is_name_rune_iff c = ground arith

runes_iff : (s : List ℕ) → Within is_name_rune s ↔ All IsNameRune s
runes_iff [] = (λ h. h, λ h. h)
runes_iff (c ∷ s) =
    let (there, back) = runes_iff s in
    let (to, from) = is_name_rune_iff c in (λ (p, h). (to p, there h), λ (p, h). (from p, back h))

IsName-complete : (s : List ℕ) → IsName s → Language instance_name_regex s
IsName-complete s (c, rest, e, h, w) = (
  c ∷ [],
  rest,
  e,
  (c, refl, (is_lower_iff c).1 h),
  Within-star_class is_name_rune rest ((runes_iff rest).1 w),
)

IsName-sound : (s : List ℕ) → Language instance_name_regex s → IsName s
IsName-sound s l =
    let (c, rest, e, h, w) = first_of_class is_lower (star (class is_name_rune)) s l in
    (c, rest, e, (is_lower_iff c).0 h, (runes_iff rest).0 (star_class-Within is_name_rune w))

name_matches_iff : (s : List ℕ) → (name_matches s ≡ true) ↔ IsName s
unfolding name_matches
name_matches_iff s =
    let (there, back) = match_string_iff instance_name_regex s in
    (λ h. IsName-sound s (there h), λ n. back (IsName-complete s n))

abbrev pub Named : {A : Type 0} → String × A → Type 0
Named (name, cfg) = IsName (codes name)

-- What the loops test of a name.
abbrev Tested : {A : Type 0} → String × A → Type 0
Tested (name, cfg) = name_matches (codes name) ≡ true

abbrev then_iff : {A B C : Type 0} → A ↔ B → B ↔ C → A ↔ C
then_iff f g = (λ a. g.0 (f.0 a), λ c. f.1 (g.1 c))

All-iff :
    {A : Type 0} (P Q : A → Type 0) (xs : List A) → ((x : A) → P x ↔ Q x) → All P xs ↔ All Q xs
All-iff P Q [] f = (λ h. h, λ h. h)
All-iff P Q (x ∷ xs) f =
    let (there, back) = All-iff P Q xs f in
    (λ (p, h). ((f x).0 p, there h), λ (q, h). ((f x).1 q, back h))

check_names-Tested :
    {A : Type 0} (kind : String) (services : List (String × A))
    → (check_names kind services ≡ none) ↔ All Tested services
unfolding check_names
check_names-Tested kind [] = ground arith
check_names-Tested kind ((name, cfg) ∷ rest) = ground (arith, check_names-Tested kind rest)

pub check_names_iff :
    {A : Type 0} (kind : String) (services : List (String × A))
    → (check_names kind services ≡ none) ↔ All Named services
check_names_iff kind services =
    then_iff (check_names-Tested kind services)
      (All-iff Tested Named services (λ (name, cfg). name_matches_iff (codes name)))

-- A mock that can be started: of one of the two providers, and a WireMock has no expectations.
abbrev pub IsMock : String × HttpMockOptions → Type 0
IsMock (name, cfg) =
    IsName (codes name)
    × (((cfg.provider ≡ "") ⊎ (cfg.provider ≡ "mockserver"))
        ⊎ ((cfg.provider ≡ "wiremock") × (cfg.expectations ≡ [])))

-- The same with what the loop tests of the name.
abbrev MockTested : String × HttpMockOptions → Type 0
MockTested (name, cfg) =
    (name_matches (codes name) ≡ true)
    × (((cfg.provider ≡ "") ⊎ (cfg.provider ≡ "mockserver"))
        ⊎ ((cfg.provider ≡ "wiremock") × (cfg.expectations ≡ [])))

check_mock_iff :
    (name : String) (cfg : HttpMockOptions) → (check_mock name cfg ≡ none) ↔ MockTested (name, cfg)
unfolding check_mock
check_mock_iff name cfg = go cfg.expectations refl
  where
    go :
        (es : List HttpExpectation)
        → cfg.expectations ≡ es
        → (check_mock name cfg ≡ none) ↔ MockTested (name, cfg)
    go [] e = ground (
      arith,
      eq_iff (provider_of cfg) mock_server,
      eq_iff (provider_of cfg) wire_mock,
      eq_iff mock_server wire_mock,
      eq_iff cfg.provider "",
      eq_iff "wiremock" "",
    )
    go (x ∷ xs) e = ground (
      arith,
      eq_iff (provider_of cfg) mock_server,
      eq_iff (provider_of cfg) wire_mock,
      eq_iff mock_server wire_mock,
      eq_iff cfg.provider "",
      eq_iff "wiremock" "",
    )

check_mocks-MockTested :
    (mocks : List (String × HttpMockOptions)) → (check_mocks mocks ≡ none) ↔ All MockTested mocks
unfolding check_mocks
check_mocks-MockTested [] = ground arith
check_mocks-MockTested ((name, cfg) ∷ rest) =
    ground (arith, check_mock_iff name cfg, check_mocks-MockTested rest)

pub check_mocks_iff :
    (mocks : List (String × HttpMockOptions)) → (check_mocks mocks ≡ none) ↔ All IsMock mocks
check_mocks_iff mocks = then_iff (check_mocks-MockTested mocks) (
    All-iff MockTested IsMock mocks (λ (name, cfg).
      let (there, back) = name_matches_iff (codes name) in
      (λ (h, k). (there h, k), λ (n, k). (back n, k))))
