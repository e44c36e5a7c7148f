-- ===== src/Nulls.antt =====
-- null/: conversions between optional values and SQL's nullable columns, and defaults/: a pointer is
-- an optional value. A nullable type of database/sql, and those of the uuid and decimal packages,
-- are a value with a flag. Numbers are words, and the types of times, floats, UUIDs and decimals are
-- arguments, with their zero values.
pub mod Dates
use aeternixth_go_lib.Prelude.{
  ℕ, Bool, true, false, String, Option, none, some, ◌≡◌, refl, if◌then◌else◌,
}

pub record SqlNull (A : Type 0) : Type 0 where
  pub value : A
  pub valid : Bool

module _ {A : Type 0} where
  -- What the conversions share: a value for nil, and the flag.
  unfoldable pub to_null : A → Option A → SqlNull A
  to_null placeholder none = record { value = placeholder; valid = false }
  to_null placeholder (some a) = record { value = a; valid = true }

  unfoldable pub null_pointer : SqlNull A → Option A
  null_pointer n = if n.valid then some n.value else none

  pub null_pointer-to_null :
      (placeholder : A) (p : Option A) → null_pointer (to_null placeholder p) ≡ p
  unfolding null_pointer to_null
  null_pointer-to_null placeholder none = refl
  null_pointer-to_null placeholder (some a) = refl

unfoldable pub to_null_string : Option String → SqlNull String
unfolding to_null
to_null_string = to_null "NULL"

unfoldable pub to_null_int64 : Option ℕ → SqlNull ℕ
unfolding to_null
to_null_int64 = to_null 0

unfoldable pub to_null_int32 : Option ℕ → SqlNull ℕ
unfolding to_null
to_null_int32 = to_null 0

unfoldable pub to_null_int16 : Option ℕ → SqlNull ℕ
unfolding to_null
to_null_int16 = to_null 0

unfoldable pub to_null_boolean : Option Bool → SqlNull Bool
unfolding to_null
to_null_boolean = to_null false

unfoldable pub to_null_string_pointer : SqlNull String → Option String
unfolding null_pointer
to_null_string_pointer = null_pointer

unfoldable pub to_null_int64_pointer : SqlNull ℕ → Option ℕ
unfolding null_pointer
to_null_int64_pointer = null_pointer

unfoldable pub to_null_int32_pointer : SqlNull ℕ → Option ℕ
unfolding null_pointer
to_null_int32_pointer = null_pointer

unfoldable pub to_null_int16_pointer : SqlNull ℕ → Option ℕ
unfolding null_pointer
to_null_int16_pointer = null_pointer

unfoldable pub to_null_boolean_pointer : SqlNull Bool → Option Bool
unfolding null_pointer
to_null_boolean_pointer = null_pointer

-- The types of other packages, each with its zero value.
module _ {A : Type 0} (zero_value : A) where
  unfoldable pub to_null_float64 : Option A → SqlNull A
  unfolding to_null
  to_null_float64 = to_null zero_value

  unfoldable pub to_null_time : Option A → SqlNull A
  unfolding to_null
  to_null_time = to_null zero_value

  unfoldable pub to_null_uuid : Option A → SqlNull A
  unfolding to_null
  to_null_uuid = to_null zero_value

  unfoldable pub to_null_decimal : Option A → SqlNull A
  unfolding to_null
  to_null_decimal = to_null zero_value

module _ {A : Type 0} where
  unfoldable pub to_null_float64_pointer : SqlNull A → Option A
  unfolding null_pointer
  to_null_float64_pointer = null_pointer

  unfoldable pub to_null_time_pointer : SqlNull A → Option A
  unfolding null_pointer
  to_null_time_pointer = null_pointer

  unfoldable pub to_null_uuid_pointer : SqlNull A → Option A
  unfolding null_pointer
  to_null_uuid_pointer = null_pointer

  unfoldable pub to_null_decimal_pointer : SqlNull A → Option A
  unfolding null_pointer
  to_null_decimal_pointer = null_pointer

-- `DefaultInt`
unfoldable pub default_int : Option ℕ → ℕ → ℕ
default_int none def = def
default_int (some n) def = n

-- `DefaultString`
unfoldable pub default_string : Option String → String → String
default_string none def = def
default_string (some s) def = s

-- `Set`, on the value before it
unfoldable pub set_default : {A : Type 0} → (A → Bool) → A → A → A
set_default is_zero v fallback = if is_zero v then fallback else v
