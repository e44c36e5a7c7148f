-- ===== src/Itestkit/Networks.antt =====
-- itestkit/internal/dockerutil/names.go: the names of networks. The random source is a parameter: its
-- bytes, or its failure.
use aeternixth_go_lib.Prelude.{
  ℕ, zero, suc, ◌+◌, ◌/◌, ◌%◌, ◌<◌, ◌-◌, String, List, [], ◌∷◌, Option, none, some, ◌≡◌, refl,
  codes, length, if◌then◌else◌, ltb, arith, str_eq,
}
use aeternixth_go_lib.Prelude

abbrev hex_digit : ℕ → ℕ
hex_digit n = if ltb n 10 then b'0' + n else b'a' + (n - 10)

-- `hex.EncodeToString`
unfoldable pub encode_hex : List ℕ → List ℕ
encode_hex [] = []
encode_hex (byte ∷ bytes) = hex_digit (byte / 16) ∷ hex_digit (byte % 16) ∷ encode_hex bytes

-- `randomSuffix`: what `rand.Read` filled the buffer with, if it did not fail.
unfoldable pub random_suffix : Option (List ℕ) → List ℕ
unfolding encode_hex
random_suffix none = codes "fallback"
random_suffix (some buf) = encode_hex buf

-- `NetworkName`
unfoldable pub network_name : String → Option (List ℕ) → List ℕ
unfolding random_suffix
network_name project random =
    Prelude.◌++◌ (codes (if str_eq project "" then "itest" else project))
      (Prelude.◌++◌ (codes "-net-") (random_suffix random))
