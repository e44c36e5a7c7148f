-- ===== src/Finance/Patterns.antt =====
-- proto/finance/v1/finance.pb.validate.go: the two patterns of its rules.
pub mod Laws
use aeternixth_go_lib.Prelude.{ℕ, Bool, ◌&&◌, ◌||◌, leb, ◌==◌}
use aeternixth_go_lib.Prelude.Regex.{Regex, class, seq, optional, plus, repeat, at_most}

abbrev pub is_digit : ℕ → Bool
is_digit c = leb b'0' c && leb c b'9'

-- `[0-9a-fA-F]`
abbrev pub is_hex : ℕ → Bool
is_hex c = is_digit c || (leb b'a' c && leb c b'f') || (leb b'A' c && leb c b'F')

abbrev pub literal : ℕ → Regex
literal c = class (λ d. d == c)

-- `[0-9]+(\.[0-9]{1,6})?`
unfoldable pub amount_pattern : Regex
amount_pattern =
    seq (plus (class is_digit))
      (optional (seq (literal b'.') (seq (class is_digit) (at_most 5 (class is_digit)))))

-- `[0-9a-fA-F]{8}-[0-9a-fA-F]{4}-[0-9a-fA-F]{4}-[0-9a-fA-F]{4}-[0-9a-fA-F]{12}`
unfoldable pub uuid_pattern : Regex
uuid_pattern =
    let group = λ (n : ℕ). repeat n (class is_hex) in
    let dash = literal b'-' in
    seq (group 8) (
      seq dash
        (seq (group 4) (seq dash (seq (group 4) (seq dash (seq (group 4) (seq dash (group 12))))))))
