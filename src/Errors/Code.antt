-- ===== src/Errors/Code.antt =====
-- errors/error.go: the error codes that the constructors and the middleware use.
use aeternixth_go_lib.Prelude.{String}

abbrev pub bad_request : String
bad_request = "BAD_REQUEST"

abbrev pub unauthorized : String
unauthorized = "UNAUTHORIZED"

abbrev pub forbidden : String
forbidden = "FORBIDDEN"

abbrev pub not_found : String
not_found = "NOT_FOUND"

abbrev pub conflict : String
conflict = "CONFLICT"

abbrev pub validation_failed : String
validation_failed = "VALIDATION_FAILED"

abbrev pub internal_server : String
internal_server = "INTERNAL_SERVER_ERROR"

abbrev pub service_unavailable : String
service_unavailable = "SERVICE_UNAVAILABLE"
