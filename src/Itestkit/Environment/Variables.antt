-- ===== src/Itestkit/Environment/Variables.antt =====
-- Which variables ExportEnv makes, and what ApplyEnv leaves in the environment (itestkit/env.go).
use mathlib.Core.Path.{subst}
use aeternixth_go_lib.Prelude.{
  ℕ, String, List, [], ◌∷◌, ◌++◌, Option, none, some, ◌≡◌, refl, codes_eq, codes_eq_iff, Bool, true,
  false, flat_map, if◌then◌else◌, arith, All, ◌≢◌,
}
use aeternixth_go_lib.Itestkit.Services.Localstack.{LocalStackResource, join_commas}
use aeternixth_go_lib.Itestkit.Services.Postgres.{PostgresResource}
use aeternixth_go_lib.Itestkit.Services.Clickhouse.{ClickHouseResource}
use aeternixth_go_lib.Itestkit.Services.Redis.{RedisResource}
use aeternixth_go_lib.Itestkit.Services.Kafka.{KafkaResource}
use aeternixth_go_lib.Itestkit.Services.Mockserver.{HttpMockResource}
use aeternixth_go_lib.Itestkit.Setup.Phases.{Services}
use aeternixth_go_lib.Itestkit.Environment.Export.{
  Variables, read, variable, assignments, export_env, last_of, postgres_variables,
  clickhouse_variables, redis_variables, kafka_variables, mock_variables, local_variables,
}
use aeternixth_go_lib.Itestkit.Environment.Apply.{
  can_set, apply_env, DistinctKeys, after_export, apply_env_lem,
}

pub data In {A : Type 0} (x : A) : List A → Type 0 where
  first : {ys : List A} → In x (x ∷ ys)
  later : {y : A} {ys : List A} → In x ys → In x (y ∷ ys)

module _ {A : Type 0} where
  All-append : (P : A → Type 0) (xs ys : List A) → All P xs → All P ys → All P (xs ++ ys)
  All-append P [] ys h k = k
  All-append P (x ∷ xs) ys (p, h) k = (p, All-append P xs ys h k)

  In_left : (x : A) (xs ys : List A) → In x xs → In x (xs ++ ys)
  In_left x [] ys h = elim h [ ]
  In_left x (_ ∷ xs) ys first = first
  In_left x (y ∷ xs) ys (later h) = later (In_left x xs ys h)

  In_right : (x : A) (xs ys : List A) → In x ys → In x (xs ++ ys)
  In_right x [] ys h = h
  In_right x (y ∷ xs) ys h = later (In_right x xs ys h)

module _ {A B : Type 0} (f : A → List B) where
  All-flat_map :
      (P : B → Type 0) (l : List A) → ((a : A) → In a l → All P (f a)) → All P (flat_map f l)
  unfolding flat_map
  All-flat_map P [] h = tt
  All-flat_map P (a ∷ l) h =
      All-append P (f a) (flat_map f l) (h a first) (All-flat_map P l (λ b m. h b (later m)))

  flat_map-In : (x : B) (a : A) (l : List A) → In a l → In x (f a) → In x (flat_map f l)
  unfolding flat_map
  flat_map-In x a [] m p = elim m [ ]
  flat_map-In x a (_ ∷ l) first p = In_left x (f a) (flat_map f l) p
  flat_map-In x a (b ∷ l) (later m) p = In_right x (f b) (flat_map f l) (flat_map-In x a l m p)

module _ (unicode_upper : ℕ → ℕ) where
  abbrev of_instance : String → String → String → List ℕ
  of_instance kind name detail = variable unicode_upper kind name detail

  -- A variable for an instance of the stack, and its value.
  pub data Exported (s : Services) : List ℕ → String → Type 0 where
    postgres_dsn :
        (name : String) (r : PostgresResource)
        → In (name, r) s.postgres_map
        → Exported s (of_instance "POSTGRES_" name "_DSN") r.dsn
    clickhouse_dsn :
        (name : String) (r : ClickHouseResource)
        → In (name, r) s.clickhouse_map
        → Exported s (of_instance "CLICKHOUSE_" name "_DSN") r.dsn
    clickhouse_http_dsn :
        (name : String) (r : ClickHouseResource)
        → In (name, r) s.clickhouse_map
        → Exported s (of_instance "CLICKHOUSE_" name "_HTTP_DSN") r.http_dsn
    redis_addr :
        (name : String) (r : RedisResource)
        → In (name, r) s.redis_map
        → Exported s (of_instance "REDIS_" name "_ADDR") r.addr
    redis_url :
        (name : String) (r : RedisResource)
        → In (name, r) s.redis_map
        → Exported s (of_instance "REDIS_" name "_URL") r.url
    kafka_brokers :
        (name : String) (r : KafkaResource)
        → In (name, r) s.kafka_map
        → Exported s (of_instance "KAFKA_" name "_BROKERS") (join_commas r.brokers)
    http_mock_base_url :
        (name : String) (r : HttpMockResource)
        → In (name, r) s.mock_map
        → Exported s (of_instance "HTTPMOCK_" name "_BASE_URL") r.base_url
    localstack_endpoint :
        (name : String) (r : LocalStackResource)
        → In (name, r) s.local_map
        → Exported s (of_instance "LOCALSTACK_" name "_ENDPOINT") r.endpoint
    localstack_region :
        (name : String) (r : LocalStackResource)
        → In (name, r) s.local_map
        → Exported s (of_instance "LOCALSTACK_" name "_REGION") r.region
    localstack_access_key_id :
        (name : String) (r : LocalStackResource)
        → In (name, r) s.local_map
        → Exported s (of_instance "LOCALSTACK_" name "_ACCESS_KEY_ID") r.access_key_id
    localstack_secret_access_key :
        (name : String) (r : LocalStackResource)
        → In (name, r) s.local_map
        → Exported s (of_instance "LOCALSTACK_" name "_SECRET_ACCESS_KEY") r.secret_access_key

  abbrev Exports : Services → List ℕ × String → Type 0
  Exports s x = Exported s x.0 x.1

  assignments-Exports : (s : Services) → All (Exports s) (assignments unicode_upper s)
  unfolding assignments postgres_variables clickhouse_variables redis_variables kafka_variables
      mock_variables local_variables
  assignments-Exports s =
      let P : List ℕ × String → Type 0 = λ x. Exports s x in
      All-append P _ _
        (All-flat_map (postgres_variables unicode_upper) P s.postgres_map
          (λ (name, r) m. (postgres_dsn name r m, tt)))
        (All-append P _ _
          (All-flat_map (clickhouse_variables unicode_upper) P s.clickhouse_map
            (λ (name, r) m. (clickhouse_dsn name r m, (clickhouse_http_dsn name r m, tt))))
          (All-append P _ _
            (All-flat_map (redis_variables unicode_upper) P s.redis_map
              (λ (name, r) m. (redis_addr name r m, (redis_url name r m, tt))))
            (All-append P _ _
              (All-flat_map (kafka_variables unicode_upper) P s.kafka_map
                (λ (name, r) m. (kafka_brokers name r m, tt)))
              (All-append P _ _
                (All-flat_map (mock_variables unicode_upper) P s.mock_map
                  (λ (name, r) m. (http_mock_base_url name r m, tt)))
                (All-flat_map (local_variables unicode_upper) P s.local_map (λ (name, r) m. (
                  localstack_endpoint name r m,
                  (
                    localstack_region name r m,
                    (
                      localstack_access_key_id name r m,
                      (localstack_secret_access_key name r m, tt),
                    ),
                  ),
                )))))))

  -- The assignments from each loop on.
  module _ (s : Services) where
    abbrev postgres_part : Variables
    postgres_part = flat_map (postgres_variables unicode_upper) s.postgres_map

    abbrev clickhouse_part : Variables
    clickhouse_part = flat_map (clickhouse_variables unicode_upper) s.clickhouse_map

    abbrev redis_part : Variables
    redis_part = flat_map (redis_variables unicode_upper) s.redis_map

    abbrev kafka_part : Variables
    kafka_part = flat_map (kafka_variables unicode_upper) s.kafka_map

    abbrev mock_part : Variables
    mock_part = flat_map (mock_variables unicode_upper) s.mock_map

    abbrev local_part : Variables
    local_part = flat_map (local_variables unicode_upper) s.local_map

    abbrev from_local : Variables
    from_local = local_part

    abbrev from_mock : Variables
    from_mock = mock_part ++ from_local

    abbrev from_kafka : Variables
    from_kafka = kafka_part ++ from_mock

    abbrev from_redis : Variables
    from_redis = redis_part ++ from_kafka

    abbrev from_clickhouse : Variables
    from_clickhouse = clickhouse_part ++ from_redis

  assigned :
      (s : Services) (key : List ℕ) (val : String)
      → Exported s key val
      → In (key, val) (assignments unicode_upper s)
  unfolding assignments postgres_variables clickhouse_variables redis_variables kafka_variables
      mock_variables local_variables
  assigned s key val (postgres_dsn name r m) =
      In_left _ (postgres_part s) (from_clickhouse s)
        (flat_map-In (postgres_variables unicode_upper) _ (name, r) s.postgres_map m first)
  assigned s key val (clickhouse_dsn name r m) = In_right _ (postgres_part s) (from_clickhouse s) (
      In_left _ (clickhouse_part s) (from_redis s)
        (flat_map-In (clickhouse_variables unicode_upper) _ (name, r) s.clickhouse_map m first))
  assigned s key val (clickhouse_http_dsn name r m) =
      In_right _ (postgres_part s) (from_clickhouse s) (
        In_left _ (clickhouse_part s) (from_redis s) (
          flat_map-In (clickhouse_variables unicode_upper) _ (name, r) s.clickhouse_map m
            (later first)))
  assigned s key val (redis_addr name r m) = In_right _ (postgres_part s) (from_clickhouse s) (
      In_right _ (clickhouse_part s) (from_redis s) (
        In_left _ (redis_part s) (from_kafka s)
          (flat_map-In (redis_variables unicode_upper) _ (name, r) s.redis_map m first)))
  assigned s key val (redis_url name r m) = In_right _ (postgres_part s) (from_clickhouse s) (
      In_right _ (clickhouse_part s) (from_redis s) (
        In_left _ (redis_part s) (from_kafka s)
          (flat_map-In (redis_variables unicode_upper) _ (name, r) s.redis_map m (later first))))
  assigned s key val (kafka_brokers name r m) = In_right _ (postgres_part s) (from_clickhouse s) (
      In_right _ (clickhouse_part s) (from_redis s) (
        In_right _ (redis_part s) (from_kafka s) (
          In_left _ (kafka_part s) (from_mock s)
            (flat_map-In (kafka_variables unicode_upper) _ (name, r) s.kafka_map m first))))
  assigned s key val (http_mock_base_url name r m) =
      In_right _ (postgres_part s) (from_clickhouse s) (
        In_right _ (clickhouse_part s) (from_redis s) (
          In_right _ (redis_part s) (from_kafka s) (
            In_right _ (kafka_part s) (from_mock s) (
              In_left _ (mock_part s) (from_local s)
                (flat_map-In (mock_variables unicode_upper) _ (name, r) s.mock_map m first)))))
  assigned s key val (localstack_endpoint name r m) =
      In_right _ (postgres_part s) (from_clickhouse s) (
        In_right _ (clickhouse_part s) (from_redis s) (
          In_right _ (redis_part s) (from_kafka s) (
            In_right _ (kafka_part s) (from_mock s) (
              In_right _ (mock_part s) (from_local s)
                (flat_map-In (local_variables unicode_upper) _ (name, r) s.local_map m first)))))
  assigned s key val (localstack_region name r m) =
      In_right _ (postgres_part s) (from_clickhouse s) (
        In_right _ (clickhouse_part s) (from_redis s) (
          In_right _ (redis_part s) (from_kafka s) (
            In_right _ (kafka_part s) (from_mock s) (
              In_right _ (mock_part s) (from_local s) (
                flat_map-In (local_variables unicode_upper) _ (name, r) s.local_map m
                  (later first))))))
  assigned s key val (localstack_access_key_id name r m) =
      In_right _ (postgres_part s) (from_clickhouse s) (
        In_right _ (clickhouse_part s) (from_redis s) (
          In_right _ (redis_part s) (from_kafka s) (
            In_right _ (kafka_part s) (from_mock s) (
              In_right _ (mock_part s) (from_local s) (
                flat_map-In (local_variables unicode_upper) _ (name, r) s.local_map m
                  (later (later first)))))))
  assigned s key val (localstack_secret_access_key name r m) =
      In_right _ (postgres_part s) (from_clickhouse s) (
        In_right _ (clickhouse_part s) (from_redis s) (
          In_right _ (redis_part s) (from_kafka s) (
            In_right _ (kafka_part s) (from_mock s) (
              In_right _ (mock_part s) (from_local s) (
                flat_map-In (local_variables unicode_upper) _ (name, r) s.local_map m
                  (later (later (later first))))))))

  -- The value is an exported one where it is one of those so far or the next one.
  chosen :
      (s : Services) (key k : List ℕ) (v : String) (before : Option String) (same : Bool)
      → codes_eq k key ≡ same
      → Exported s k v
      → ((val : String) → before ≡ some val → Exported s key val)
      → (val : String) → (if same then some v else before) ≡ some val
      → Exported s key val
  chosen s key k v before true c p b val e =
      let names : k ≡ key = (codes_eq_iff k key).0 c in
      let vals : v ≡ val = cc in
      subst (λ x. Exported s x val) names (subst (λ x. Exported s k x) vals p)
  chosen s key k v before false c p b val e = b val e

  -- What is assigned last is an exported value.
  last_of-Exported :
      (s : Services) (key : List ℕ) (vars : Variables) (before : Option String)
      → All (Exports s) vars
      → ((val : String) → before ≡ some val → Exported s key val)
      → (val : String) → last_of key vars before ≡ some val
      → Exported s key val
  last_of-Exported s key [] before h b val e = b val e
  last_of-Exported s key ((k, v) ∷ vars) before (p, h) b val e =
      last_of-Exported s key vars (if codes_eq k key then some v else before) h
        (chosen s key k v before (codes_eq k key) refl p b) val e

-- What is assigned is there.
last_of_kept :
    (key : List ℕ) (vars : Variables) (before : Option String)
    → before ≢ none
    → last_of key vars before ≢ none
last_of_kept key [] before h = h
last_of_kept key ((k, v) ∷ vars) before h =
    last_of_kept key vars (if codes_eq k key then some v else before) (ground arith)

last_of-In :
    (key : List ℕ) (val : String) (vars : Variables) (before : Option String)
    → In (key, val) vars
    → last_of key vars before ≢ none
last_of-In key val [] before h = elim h [ ]
last_of-In key val (_ ∷ vars) before first =
    last_of_kept key vars (if codes_eq key key then some val else before)
      (ground (arith, codes_eq_iff key key))
last_of-In key val ((k, v) ∷ vars) before (later h) =
    last_of-In key val vars (if codes_eq k key then some v else before) h

-- What becomes of a variable: it stays where the stack exports none of that name; else it has the
-- value of one that the stack exports, if the operating system takes it.
abbrev pub Applied : (ℕ → ℕ) → Services → List ℕ → Option String → Option String → Type 0
Applied unicode_upper s key before after =
    (((val : String) → Exported unicode_upper s key val → ⊥) → after ≡ before)
    × ((val : String)
        → Exported unicode_upper s key val
        → (last : String) × Exported unicode_upper s key last
          × (after ≡ (if can_set key last then some last else before)))

applied_lem :
    (unicode_upper : ℕ → ℕ) (s : Services) (key : List ℕ) (before after answer : Option String)
    → last_of key (assignments unicode_upper s) none ≡ answer
    → after ≡ after_export key answer before
    → Applied unicode_upper s key before after
applied_lem up s key before after none e path = (
  λ h. path,
  λ val x. absurd (last_of-In key val (assignments up s) none (assigned up s key val x) e),
)
applied_lem up s key before after (some last) e path =
    let exported =
      last_of-Exported up s key (assignments up s) none (assignments-Exports up s) (λ val q. cc)
        last e in
    (λ h. absurd (h last exported), λ val x. (last, exported, path))

-- In whatever order ApplyEnv ranges over the exported map: a variable that is none of the eleven
-- kinds for an instance of the stack stays as it was; every other one has the value of an
-- instance's variable of that name, where the operating system takes name and value, and else
-- stays.
pub apply_env-export_env :
    (unicode_upper : ℕ → ℕ) (s : Services) (ranged env : Variables) (key : List ℕ)
    → DistinctKeys ranged
    → ((k : List ℕ) → read k ranged ≡ read k (export_env unicode_upper s))
    → Applied unicode_upper s key (read key env) (read key (apply_env ranged env))
apply_env-export_env up s ranged env key d same =
    applied_lem up s key (read key env) (read key (apply_env ranged env)) _ refl
      (apply_env_lem up s ranged env key d same)
