-- ===== src/Tests/Checks.antt =====
-- The health checks at concrete inputs.
use aeternixth_go_lib.Prelude.{
  String, List, [], ◌∷◌, true, false, none, some, ◌≡◌, ◌≢◌, ◌↔◌, inl, refl, Distinct, lookup,
  if◌then◌else◌,
}
use aeternixth_go_lib.Health.{Pinger, Finish, run_checks}
use aeternixth_go_lib.Health.Schedule.{first, later, Schedules, ended, ends}
use aeternixth_go_lib.Health.Evaluate.{
  Reported, run_checks-Reported, all_succeed, run_checks_status,
}
use aeternixth_go_lib.Health.Kafka.{
  new_metadata_pinger, Client, MetadataPinger, index_out_of_range, passed, ping, deadline_error,
  Sees, ping_iff,
}

abbrev up : Pinger
up c = none

abbrev down : Pinger
down c = some "refused"

abbrev checks : List (String × Pinger)
checks = ("db", up) ∷ ("cache", down) ∷ []

-- The second check ends first, and the other one after the deadline.
abbrev order : List Finish
order =
    record { name = "cache"; pinger = down; late = false }
    ∷ record { name = "db"; pinger = up; late = true }
    ∷ []

distinct : Distinct checks
unfolding lookup
distinct = (refl, (refl, tt))

scheduled : Schedules checks order
scheduled = ends false (later first) (ends true first ended)

run_checks-Reported_example :
    Reported (lookup "db" checks) (lookup "db" (run_checks order).0.checks)
run_checks-Reported_example = run_checks-Reported "db" distinct scheduled

run_checks_status_example :
    ((run_checks order).0.status ≡ (if all_succeed order then "ready" else "not_ready"))
    × ((run_checks order).1 ≡ (if all_succeed order then 200 else 503))
run_checks_status_example = run_checks_status distinct scheduled

abbrev client : Client
client = record {
  dial = λ b. none;
  deadline = true;
  set_deadline = none;
  read_partitions = λ topics. inl ("orders" ∷ []);
}

abbrev pinger : MetadataPinger
pinger = record { brokers = "k:9092" ∷ []; topics = "orders" ∷ []; tls = false }

ping_iff_example :
    (ping client pinger ≢ index_out_of_range)
    × ((ping client pinger ≡ passed) ↔ (
        (client.dial "k:9092" ≡ none)
        × (deadline_error client ≡ none)
        × Sees ("orders" ∷ []) (client.read_partitions ("orders" ∷ []))))
unfolding new_metadata_pinger
ping_iff_example = ping_iff client "k:9092" [] ("orders" ∷ []) false pinger refl
