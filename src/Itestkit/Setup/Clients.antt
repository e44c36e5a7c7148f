-- ===== src/Itestkit/Setup/Clients.antt =====
-- The other clients of the setup: `RedisFlushAll` of itestkit/cleanup.go with its loop in stack.go,
-- the topics of topic.go, and the expectations of httpmock.go. A map of a request's body is in the
-- order of its insertions; `json.Marshal`, which cannot fail on these values, writes it sorted.
use Prim.Native.String.{◌++◌}
use aeternixth_go_lib.Prelude.{
  ℕ, true, false, ◌&&◌, leb, ◌||◌, not, String, List, [], ◌∷◌, none, some, codes, lookup,
  if◌then◌else◌, ◌/◌, str_eq, ◌==◌,
}
use aeternixth_go_lib.Itestkit.Options.{
  RedisOptions, KafkaOptions, KafkaTopic, HttpMockOptions, HttpExpectation, mock_server,
}
use aeternixth_go_lib.Itestkit.Services.Redis.{RedisResource}
use aeternixth_go_lib.Itestkit.Services.Kafka.{KafkaResource}
use aeternixth_go_lib.Itestkit.Services.Mockserver.{HttpMockResource}
use aeternixth_go_lib.Itestkit.Setup.Sql.{labelled, instance_of, non_empty}
use aeternixth_go_lib.Itestkit.Outside.{
  Outside, Json, json_text, json_number, json_flag, json_texts, object, Members, no_member, member,
  TopicSpec, flush_redis, dial_kafka, ask_controller, create_topics, put_expectation, outside,
  message, http_status, Act, pure, fail, ◌>>◌, or_wrap, call, for_each,
}

-- `make` with a default in place of zero
abbrev or_one : ℕ → ℕ
or_one n = if n == 0 then 1 else n

-- The loop of `CreateKafkaTopics` that builds the topics' configurations
unfoldable pub topic_specs : List KafkaTopic → List TopicSpec
topic_specs [] = []
topic_specs (t ∷ topics) =
    record {
      topic = t.topic_name;
      num_partitions = or_one t.partitions;
      replication = or_one t.replication_factor;
      config_entries = t.config;
    }
    ∷ topic_specs topics

abbrev or_text : String → String → String
or_text given_text default = if str_eq given_text "" then default else given_text

abbrev singletons : List (String × String) → Members
singletons [] = no_member
singletons ((k, v) ∷ entries) = member k (json_texts (v ∷ [])) (singletons entries)

-- `if len(entries) > 0 { into[key] = ... }`
abbrev with_entries : String → List (String × String) → Members → Members
with_entries key [] rest = rest
with_entries key (e ∷ entries) rest = member key (object (singletons (e ∷ entries))) rest

abbrev with_text : String → String → Members → Members
with_text key val rest = if str_eq val "" then rest else member key (json_text val) rest

-- `Milliseconds` of a duration in nanoseconds
abbrev with_delay : ℕ → Members → Members
with_delay delay rest =
    if delay == 0
    then rest
    else member "delay"
        (object (
          member "timeUnit" (json_text "MILLISECONDS")
            (member "value" (json_number (delay / 1000000)) no_member)))
        rest

abbrev times_json : ℕ → Json
times_json times =
    if times == 0
    then object (member "unlimited" (json_flag true) no_member)
    else object (
        member "remainingTimes" (json_number times)
          (member "unlimited" (json_flag false) no_member))

-- The body that `postMockServerExpectation` submits
unfoldable pub expectation_json : HttpExpectation → Json
expectation_json e = object (
    member "httpRequest"
      (object (
        member "method" (json_text (or_text e.method "GET")) (
          member "path" (json_text e.path) (
            with_entries "queryStringParameters" e.query_params (
              with_entries "headers" e.request_headers
                (with_text "body" e.request_body no_member))))))
      (member "httpResponse"
        (object (
          member "statusCode"
            (json_number (if e.response_status == 0 then 200 else e.response_status))
            (with_entries "headers" e.response_headers
              (with_text "body" e.response_body (with_delay e.delay no_member)))))
        (member "times" (times_json e.times) no_member)))

module _ (out : Outside) where
  -- `RedisFlushAll`
  unfoldable pub redis_flush_all : String → Act (Unit {0})
  unfolding call
  redis_flush_all url = elim (out.redis_url url) [
    | some err ↦ or_wrap (codes "parse redis url") (fail (outside err))
    | none ↦ or_wrap (codes "flushall") (call out (flush_redis url))
  ]

  -- The loop of `StartStack` over the Redis instances
  unfoldable pub flush_all_redis :
      List (String × RedisOptions) → List (String × RedisResource) → Act (Unit {0})
  unfolding redis_flush_all for_each lookup
  flush_all_redis opts res =
      for_each
        (λ (name, cfg).
          instance_of res name cfg.flush_before_test
            (λ r. or_wrap (labelled "flush redis[" name "]") (redis_flush_all r.url)))
        opts

  -- The broker that leads the cluster, as the connection dialled last names it.
  abbrev pub to_controller : (String → Act (Unit {0})) → Act (Unit {0})
  to_controller go h = go (out.controller h) h

  -- `CreateKafkaTopics`
  unfoldable pub create_kafka_topics : List String → List KafkaTopic → Act (Unit {0})
  unfolding call topic_specs
  create_kafka_topics [] topics = fail (message (codes "no brokers provided"))
  create_kafka_topics (b ∷ brokers) [] = pure tt
  create_kafka_topics (b ∷ brokers) (t ∷ topics) =
      or_wrap (codes ("dial kafka " ++ b)) (call out (dial_kafka b))
      >> or_wrap (codes "kafka controller") (call out (ask_controller b))
      >> to_controller (λ a.
        or_wrap (codes ("dial kafka controller " ++ a)) (call out (dial_kafka a))
        >> or_wrap (codes "create topics") (call out (create_topics (topic_specs (t ∷ topics)))))

  -- `createAllKafkaTopics`
  unfoldable pub create_all_kafka_topics :
      List (String × KafkaOptions) → List (String × KafkaResource) → Act (Unit {0})
  unfolding create_kafka_topics for_each lookup
  create_all_kafka_topics opts res =
      for_each
        (λ (name, cfg). instance_of res name (cfg.create_topics && non_empty cfg.topics) (λ r.
          or_wrap (labelled "create kafka[" name "]") (create_kafka_topics r.brokers cfg.topics)))
        opts

  -- The check of the response: a status of 300 or more is an error.
  abbrev check_status : Act (Unit {0})
  check_status h =
      if leb 300 (out.http_reply h).0
      then fail (http_status (out.http_reply h).0 (out.http_reply h).1) h
      else pure tt h

  -- `postMockServerExpectation`
  unfoldable pub post_expectation : String → HttpExpectation → Act (Unit {0})
  unfolding call expectation_json
  post_expectation base_url e =
      let url = base_url ++ "/mockserver/expectation" in
      elim (out.http_request url) [
        | some err ↦ or_wrap (codes "build request") (fail (outside err))
        | none ↦
            or_wrap (codes "post expectation") (call out (put_expectation url (expectation_json e)))
            >> check_status
      ]

  -- `applyMockServerExpectations`
  unfoldable pub apply_expectations :
      List (String × HttpMockOptions) → List (String × HttpMockResource) → Act (Unit {0})
  unfolding post_expectation for_each lookup
  apply_expectations opts res =
      for_each
        (λ (name, cfg). instance_of res name true (λ r.
          if not (str_eq r.provider mock_server) || not (non_empty cfg.expectations)
          then pure tt
          else for_each
              (λ e.
                or_wrap
                  (labelled "apply httpmock[" name
                    ("] expectation " ++ (or_text e.method "GET" ++ (" " ++ e.path))))
                  (post_expectation r.base_url e))
              cfg.expectations))
        opts
