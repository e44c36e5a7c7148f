-- ===== src/Itestkit/Docker.antt =====
-- The part of testcontainers-go that itestkit calls, as parameters: what a call answers, and the
-- containers that were started and that were asked to terminate, with the other calls so far.
use aeternixth_go_lib.Prelude.{
  ℕ, Bool, true, false, suc, String, List, ◌∷◌, Option, none, some, ◌⊎◌, inl, inr,
}
use aeternixth_go_lib.Itestkit.Outside.{History}

pub data Image : Type 0 where
  postgres_image clickhouse_image redis_image kafka_image mock_image wire_image local_image : Image

-- A `ContainerCustomizer`; the wait strategy is left out, and the environment is in the order of
-- its insertions.
pub data Customizer : Type 0 where
  database username password config_file cluster_id alias : String → Customizer
  init_scripts : List String → Customizer
  tls : Customizer
  env : List (String × String) → Customizer
  files : List (List ℕ × List ℕ) → Customizer

-- A container is known by the number of those started before it. A failed call gives the error's
-- text.
pub record Client : Type 0 where
  pub run : Image → String → List Customizer → ℕ → Option String
  -- whether `Run` hands back, beside its error, a container that it has created
  pub hands_back : Image → String → List Customizer → ℕ → Bool
  -- the error of the removal of the network
  pub network_removal : Option String
  pub host : ℕ → String ⊎ String
  pub mapped_port : ℕ → String → String ⊎ String
  pub brokers : ℕ → List String ⊎ String
  pub port_endpoint : ℕ → String ⊎ String
  -- `filepath.Abs`
  pub abs : String → String ⊎ String
  -- `url.QueryEscape`
  pub query_escape : String → String
  -- `%q` of `fmt`
  pub quote : String → String

pub record Docker : Type 0 where
  pub started : ℕ
  pub terminated : List ℕ
  -- handed back by `Run` beside an error, and dropped by the starters
  pub dropped : List ℕ
  pub history : History

-- `TerminateContainer`; its error is ignored wherever it is called
abbrev pub terminate : ℕ → Docker → Docker
terminate c d = record d { terminated = c ∷ d.terminated }

-- A container that was created, and that nothing knows any more.
abbrev pub drop_container : Docker → Docker
drop_container d = record d { started = suc d.started; dropped = d.started ∷ d.dropped }

abbrev pub answered : Docker → Bool → Option String → (ℕ ⊎ String) × Docker
answered d true (some err) = (inr err, drop_container d)
answered d false (some err) = (inr err, d)
answered d _ none = (inl d.started, record d { started = suc d.started })

-- `Run`: where it fails, every starter returns its error and drops the container that came with it.
unfoldable pub run_container :
    Client → Image → String → List Customizer → Docker → (ℕ ⊎ String) × Docker
run_container k kind image customizers d =
    answered d (k.hands_back kind image customizers d.started)
      (k.run kind image customizers d.started)

-- What follows a call that may have failed, with its error or with its value.
abbrev pub on_result :
    {A B : Type 0} → (A → Docker → B) → (String → Docker → B) → (A ⊎ String) × Docker → B
on_result good bad (inl a, d) = good a d
on_result good bad (inr err, d) = bad err d

-- A step that needs a container: where it fails, the container is terminated.
abbrev pub or_terminate :
    {A B : Type 0}
    → ℕ
    → (String → String)
    → Docker
    → A ⊎ String
    → (A → (B ⊎ String) × Docker)
    → (B ⊎ String) × Docker
or_terminate c wrap d (inr err) go = (inr (wrap err), terminate c d)
or_terminate c wrap d (inl a) go = go a
