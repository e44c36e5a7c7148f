-- ===== src/Itestkit/Services/Starters.antt =====
-- The six starters of a single instance: each starts one container, or leaves nothing running.
use aeternixth_go_lib.Prelude.{ℕ, Bool, String, refl, inl, inr, Bool-cases, str_eq}
use aeternixth_go_lib.Itestkit.Options.{
  PostgresOptions, ClickHouseOptions, RedisOptions, KafkaOptions, LocalStackOptions,
  HttpMockOptions, mock_server, wire_mock,
}
use aeternixth_go_lib.Itestkit.Files.{FileSystem}
use aeternixth_go_lib.Itestkit.Validation.{provider_of}
use aeternixth_go_lib.Itestkit.Docker.{
  Client, Docker, postgres_image, clickhouse_image, redis_image, kafka_image, mock_image,
  wire_image, local_image,
}
use aeternixth_go_lib.Itestkit.Services.Laws.{
  Started, or_terminate-Started, start_container-Started,
}
use aeternixth_go_lib.Itestkit.Services.Postgres.{PostgresResource, start_one_postgres}
use aeternixth_go_lib.Itestkit.Services.Clickhouse.{ClickHouseResource, start_one_clickhouse}
use aeternixth_go_lib.Itestkit.Services.Redis.{RedisResource, start_one_redis}
use aeternixth_go_lib.Itestkit.Services.Kafka.{
  KafkaResource, start_one_kafka, kafka_customizers, kafka_resource,
}
use aeternixth_go_lib.Itestkit.Services.Localstack.{
  LocalStackResource, start_one_localstack, localstack_customizers, localstack_resource,
}
use aeternixth_go_lib.Itestkit.Services.Mockserver.{
  mock_resource, mock_server_customizers, HttpMockResource, start_one_mock, start_one_mock_server,
  start_one_wire_mock,
}

module _ (k : Client) (project : String) (fs : FileSystem) (net : Bool) (name : String)
    (d : Docker) where
  pub postgres-Started :
      (cfg : PostgresOptions)
      → Started (λ r. r.container) d (start_one_postgres k project net name cfg d)
  unfolding start_one_postgres
  postgres-Started cfg =
      let at : PostgresResource → ℕ = λ r. r.container in
      start_container-Started at k postgres_image _ _ _ d (
        or_terminate-Started at _ d (k.host d.started) _ (λ host.
          or_terminate-Started at _ d (k.mapped_port d.started _) _ (λ port. (refl, refl))))

  pub clickhouse-Started :
      (cfg : ClickHouseOptions)
      → Started (λ r. r.container) d (start_one_clickhouse k project net name cfg d)
  unfolding start_one_clickhouse
  clickhouse-Started cfg =
      let at : ClickHouseResource → ℕ = λ r. r.container in
      start_container-Started at k clickhouse_image _ _ _ d (
        or_terminate-Started at _ d (k.host d.started) _ (λ host.
          or_terminate-Started at _ d (k.mapped_port d.started _) _ (λ native.
            or_terminate-Started at _ d (k.mapped_port d.started _) _ (λ http. (refl, refl)))))

  pub redis-Started :
      (cfg : RedisOptions) → Started (λ r. r.container) d (start_one_redis k net name cfg d)
  unfolding start_one_redis
  redis-Started cfg =
      let at : RedisResource → ℕ = λ r. r.container in
      start_container-Started at k redis_image _ _ _ d (
        or_terminate-Started at _ d (k.host d.started) _ (λ host.
          or_terminate-Started at _ d (k.mapped_port d.started _) _ (λ port. (refl, refl))))

  pub kafka-Started :
      (cfg : KafkaOptions) → Started (λ r. r.container) d (start_one_kafka k project net name cfg d)
  unfolding start_one_kafka
  kafka-Started cfg =
      let at : KafkaResource → ℕ = λ r. r.container in
      start_container-Started at k kafka_image _ (kafka_customizers k project net name cfg)
        (kafka_resource k project net name) d
        (or_terminate-Started at _ d (k.brokers d.started) _ (λ brokers. (refl, refl)))

  pub localstack-Started :
      (cfg : LocalStackOptions)
      → Started (λ r. r.container) d (start_one_localstack k net name cfg d)
  unfolding start_one_localstack
  localstack-Started cfg =
      let at : LocalStackResource → ℕ = λ r. r.container in
      start_container-Started at k local_image _ (localstack_customizers k net name cfg)
        (localstack_resource k net name cfg) d
        (or_terminate-Started at _ d (k.port_endpoint d.started) _ (λ endpoint. (refl, refl)))

  mock_server-Started :
      (cfg : HttpMockOptions)
      → Started (λ r. r.container) d (start_one_mock_server k fs net name cfg d)
  unfolding start_one_mock_server
  mock_server-Started cfg =
      let at : HttpMockResource → ℕ = λ r. r.container in
      start_container-Started at k mock_image _ (mock_server_customizers k fs net name cfg)
        (mock_resource k fs net name mock_server "1080/tcp") d
        (or_terminate-Started at _ d (k.host d.started) _ (λ host.
          or_terminate-Started at _ d (k.mapped_port d.started _) _ (λ port. (refl, refl))))

  wire_mock-Started :
      (cfg : HttpMockOptions)
      → Started (λ r. r.container) d (start_one_wire_mock k fs net name cfg d)
  unfolding start_one_wire_mock
  wire_mock-Started cfg =
      let at : HttpMockResource → ℕ = λ r. r.container in
      start_container-Started at k wire_image _ _ _ d (
        or_terminate-Started at _ d (k.host d.started) _ (λ host.
          or_terminate-Started at _ d (k.mapped_port d.started _) _ (λ port. (refl, refl))))

  pub mock-Started :
      (cfg : HttpMockOptions) → Started (λ r. r.container) d (start_one_mock k fs net name cfg d)
  unfolding start_one_mock
  mock-Started cfg = elim (Bool-cases (str_eq (provider_of cfg) mock_server)) [
    | inl found ↦ rw (found, Started, start_one_mock) (mock_server-Started cfg)
    | inr other ↦ elim (Bool-cases (str_eq (provider_of cfg) wire_mock)) [
      | inl found ↦ rw (other, found, Started, start_one_mock) (wire_mock-Started cfg)
      | inr unknown ↦ rw (other, unknown, Started, start_one_mock) (inl refl)
    ]
  ]
