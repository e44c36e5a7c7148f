-- ===== src/Itestkit/Services/Kafka.antt =====
-- itestkit/kafka.go.
use Prim.Native.String.{◌++◌}
use aeternixth_go_lib.Prelude.{ℕ, Bool, String, List, [], ◌∷◌, map, ◌⊎◌, inl, inr, if◌then◌else◌}
use aeternixth_go_lib.Prelude
use aeternixth_go_lib.Itestkit.Options.{KafkaOptions}
use aeternixth_go_lib.Itestkit.Docker.{
  Client, Customizer, cluster_id, Docker, kafka_image, or_terminate,
}
use aeternixth_go_lib.Itestkit.Services.{
  or_default, normalized, network_alias, extra_env, start_container, start_all,
}

pub record KafkaResource : Type 0 where
  pub name : String
  pub brokers : List String
  pub container : ℕ

module _ (k : Client) (project : String) (net : Bool) where
  unfoldable pub kafka_customizers : String → KafkaOptions → List Customizer ⊎ String
  kafka_customizers name cfg = inl (
      cluster_id
        (or_default cfg.cluster_id (normalized project ++ ("-" ++ (normalized name ++ "-cluster"))))
      ∷ Prelude.◌++◌ (network_alias net ("kafka-" ++ name)) (extra_env cfg.extra_env))

  -- The end of `startOneKafka`: the brokers and the resource.
  abbrev pub kafka_resource : String → ℕ → Docker → (KafkaResource ⊎ String) × Docker
  kafka_resource name c d1 =
      or_terminate c (λ e. "brokers: " ++ e) d1 (k.brokers c)
        (λ brokers. (inl (record { name = name; brokers = brokers; container = c }), d1))

  -- `startOneKafka`
  unfoldable pub start_one_kafka :
      String → KafkaOptions → Docker → (KafkaResource ⊎ String) × Docker
  unfolding start_container kafka_customizers
  start_one_kafka name cfg d =
      start_container k kafka_image (or_default cfg.image "confluentinc/confluent-local:7.7.0")
        (kafka_customizers name cfg) (kafka_resource name) d

  -- `startKafka`
  unfoldable pub start_kafka :
      Bool
      → List (String × KafkaOptions)
      → Docker
      → (List (String × KafkaResource) ⊎ String) × Docker
  unfolding start_all start_one_kafka
  start_kafka keep cfgs d = start_all (λ r. r.container) keep "kafka" start_one_kafka cfgs [] d
