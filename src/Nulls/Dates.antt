-- ===== src/Nulls/Dates.antt =====
-- null/null_date.go. `Parse` and `Format` of Go's time package, with the layout 2006-01-02, are
-- parameters.
use aeternixth_go_lib.Prelude.{
  true, false, String, Option, none, some, ◌≡◌, refl, ap, if◌then◌else◌, str_eq,
}
use aeternixth_go_lib.Nulls.{SqlNull}

module _ {Time : Type 0} (zero_time : Time) (parse : String → Option Time)
    (format : Time → String) where
  abbrev pub null_time : Option Time → SqlNull Time
  null_time none = record { value = zero_time; valid = false }
  null_time (some t) = record { value = t; valid = true }

  -- `StringToTimePointer`
  unfoldable pub string_to_time_pointer : Option String → Option Time
  string_to_time_pointer none = none
  string_to_time_pointer (some s) = if str_eq s "" then none else parse s

  -- `ToNullDate`
  unfoldable pub to_null_date : Option String → SqlNull Time
  to_null_date none = null_time none
  to_null_date (some s) = if str_eq s "" then null_time none else null_time (parse s)

  -- `TimePointerToString`
  unfoldable pub time_pointer_to_string : Option Time → Option String
  time_pointer_to_string none = none
  time_pointer_to_string (some t) = some (format t)

  -- `ToNullDatePointer`
  unfoldable pub to_null_date_pointer : SqlNull Time → Option String
  to_null_date_pointer nt = if nt.valid then some (format nt.value) else none

  module _ (midnight : Time → Time) (FourDigits : Time → Type 0)
      (parse-format : (t : Time) → FourDigits t → parse (format t) ≡ some (midnight t))
      (parse-FourDigits : (s : String) (t : Time) → parse s ≡ some t → FourDigits t)
      (format-midnight : (t : Time) → format (midnight t) ≡ format t)
      (format_nonempty : (t : Time) → str_eq (format t) "" ≡ false) where
    stored_date :
        (t : Time)
        → FourDigits t
        → to_null_date_pointer (to_null_date (some (format t))) ≡ some (format t)
    unfolding to_null_date_pointer to_null_date
    stored_date t four = rw (format_nonempty t, parse-format t four) (ap some (format-midnight t))

    stored_twice :
        (answer : Option Time)
        → ((t : Time) → answer ≡ some t → FourDigits t)
        → to_null_date_pointer (to_null_date (to_null_date_pointer (null_time answer)))
          ≡ to_null_date_pointer (null_time answer)
    unfolding to_null_date_pointer to_null_date
    stored_twice none four = refl
    stored_twice (some t) four = stored_date t (four t refl)

    through_column :
        (s : Option String)
        → to_null_date_pointer (to_null_date (to_null_date_pointer (to_null_date s)))
          ≡ to_null_date_pointer (to_null_date s)
    unfolding to_null_date
    through_column none = stored_twice none (λ t e. cc)
    through_column (some s) =
        elim (str_eq s "")
          as (λ b.
            let n = if b then null_time none else null_time (parse s) in
            to_null_date_pointer (to_null_date (to_null_date_pointer n)) ≡ to_null_date_pointer n) [
              | true ↦ stored_twice none (λ t e. cc)
              | false ↦ stored_twice (parse s) (λ t e. parse-FourDigits s t e)
            ]

    -- Where a date's text is never empty and stands for the date's midnight, a text is parsed to a
    -- year of four digits only, and the text of such a year is parsed to the midnight: a time of
    -- such a year that is written as a date goes through a nullable column unchanged; and whatever
    -- optional text goes through the column, to send the result through it again changes nothing.
    pub dates_roundtrip :
        ((t : Time)
          → FourDigits t
          → to_null_date_pointer (to_null_date (time_pointer_to_string (some t)))
            ≡ time_pointer_to_string (some t))
        × ((s : Option String)
            → to_null_date_pointer (to_null_date (to_null_date_pointer (to_null_date s)))
              ≡ to_null_date_pointer (to_null_date s))
    unfolding time_pointer_to_string
    dates_roundtrip = (stored_date, through_column)
