-- ===== src/Errors/Registry.antt =====
-- errors/error.go: what the registry of status codes answers after a registration.
use aeternixth_go_lib.Prelude.{
  ℕ, String, List, none, some, ◌≡◌, lookup, or_else, Distinct, lookup-insert_all, arith,
}
use aeternixth_go_lib.Errors.{Registries, register_codes, get_status_code}

-- With a registration that names no code twice, a registered code gets its status from that
-- registration if it names the code, else from the earlier ones, and 500 if none does.
pub get_status_code-register_codes :
    (r : Registries) (codes : List (String × ℕ)) (code : String)
    → Distinct codes
    → get_status_code (register_codes codes r) code
      ≡ (elim (or_else (lookup code codes) (lookup code r.registry)) [
        | some status ↦ status
        | none ↦ 500
      ])
unfolding get_status_code register_codes
get_status_code-register_codes r codes code d =
    ground (arith, lookup-insert_all codes r.registry code d)
