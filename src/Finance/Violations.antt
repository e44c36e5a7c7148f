-- ===== src/Finance/Violations.antt =====
-- proto/finance/v1/finance.pb.validate.go: the errors. The file has one type of violations and one of
-- lists of them for each message, which differ in the message's name only; here the name is a part
-- of the error.
use Prim.Native.String.{◌++◌}
use aeternixth_go_lib.Prelude.{String, Bool, if◌then◌else◌}

-- A violation has the message, the field, the reason, the cause and whether it is of a map's key.
mutual
  pub data Violation : Type 0 where
    text : String → Violation
    violation : String → String → String → Cause → Bool → Violation
    multi : String → Violations → Violation

  pub data Cause : Type 0 where
    uncaused : Cause
    caused : Violation → Cause

  pub data Violations : Type 0 where
    end : Violations
    cons : Violation → Violations → Violations

-- `append`
unfoldable pub append : Violations → Violation → Violations
append end failure = cons failure end
append (cons first rest) failure = cons first (append rest failure)

abbrev join_text : String → Violations → String → String
join_text first end rest = first
join_text first (cons failure failures) rest = first ++ ("; " ++ rest)

-- The `Error` methods.
unfoldable mutual
  pub failure_text : Violation → String
  failure_text (text message) = message
  failure_text (violation message field reason cause key) =
      "invalid "
      ++ ((if key then "key for " else "")
          ++ (message ++ ("." ++ (field ++ (": " ++ (reason ++ cause_text cause))))))
  failure_text (multi message failures) = failures_text failures

  pub cause_text : Cause → String
  cause_text uncaused = ""
  cause_text (caused failure) = " | caused by: " ++ failure_text failure

  pub failures_text : Violations → String
  failures_text end = ""
  failures_text (cons failure failures) =
      join_text (failure_text failure) failures (failures_text failures)
