-- ===== src/Health/Kafka.antt =====
-- observability/health/healthkafka: the metadata pinger. The Kafka client's calls are parameters:
-- each gives its error's text, or nil; `read_partitions` gives the topics of the partitions found.
use Prim.Native.String.{◌++◌}
use aeternixth_go_lib.Prelude.{
  String, List, [], ◌∷◌, Option, none, some, ◌≡◌, ◌≢◌, ◌↔◌, ◌⊎◌, inl, inr, arith, str_eq, eq_iff,
  if◌then◌else◌, Bool, true, false, All, ◌||◌,
}

pub data PingerError : Type 0 where
  empty_brokers empty_topics : PingerError

pub record MetadataPinger : Type 0 where
  pub brokers : List String
  pub topics : List String
  pub tls : Bool

-- `NewMetadataPinger`
unfoldable pub new_metadata_pinger : List String → List String → Bool → MetadataPinger ⊎ PingerError
new_metadata_pinger [] topics tls = inr empty_brokers
new_metadata_pinger (b ∷ brokers) [] tls = inr empty_topics
new_metadata_pinger (b ∷ brokers) (t ∷ topics) tls =
    inl (record { brokers = b ∷ brokers; topics = t ∷ topics; tls = tls })

-- What a run of the check ends in; an index out of range panics.
pub data Outcome : Type 0 where
  passed : Outcome
  failed : String → Outcome
  index_out_of_range : Outcome

pub record Client : Type 0 where
  pub dial : String → Option String
  pub deadline : Bool
  pub set_deadline : Option String
  pub read_partitions : List String → List String ⊎ String

unfoldable pub present : List String → String → Bool
present [] t = false
present (p ∷ parts) t = str_eq p t || present parts t

-- The last loop: the first topic that is not present.
unfoldable pub assert_topics : List String → List String → Outcome
unfolding present
assert_topics parts [] = passed
assert_topics parts (t ∷ topics) =
    if present parts t
    then assert_topics parts topics
    else failed ("healthkafka: topic missing: " ++ t)

unfoldable pub check_parts : List String → List String ⊎ String → Outcome
unfolding assert_topics
check_parts topics (inr err) = failed ("healthkafka: metadata RPC: " ++ err)
check_parts topics (inl parts) = assert_topics parts topics

module _ (k : Client) where
  -- What `conn.SetDeadline` fails with, where the context has a deadline.
  abbrev pub deadline_error : Option String
  deadline_error = if k.deadline then k.set_deadline else none

  unfoldable pub check_topics_exist : List String → List String → Outcome
  unfolding check_parts
  check_topics_exist [] topics = index_out_of_range
  check_topics_exist (b ∷ brokers) topics = elim (k.dial b) [
    | some err ↦ failed ("healthkafka: dial " ++ b ++ ": " ++ err)
    | none ↦ elim deadline_error [
      | some err ↦ failed ("healthkafka: set deadline: " ++ err)
      | none ↦ check_parts topics (k.read_partitions topics)
    ]
  ]

  unfoldable pub ping : MetadataPinger → Outcome
  unfolding check_topics_exist
  ping p = check_topics_exist p.brokers p.topics

-- The topic is one of those.
abbrev pub Names : List String → String → Type 0
Names [] t = ⊥
Names (p ∷ parts) t = (p ≡ t) ⊎ Names parts t

present_iff : (parts : List String) (t : String) → (present parts t ≡ true) ↔ Names parts t
unfolding present
present_iff [] t = ground arith
present_iff (p ∷ parts) t = ground (arith, eq_iff p t, present_iff parts t)

assert_topics_iff :
    (parts topics : List String) → (assert_topics parts topics ≡ passed) ↔ All (Names parts) topics
unfolding assert_topics
assert_topics_iff parts [] = ground arith
assert_topics_iff parts (t ∷ topics) =
    ground (arith, assert_topics_iff parts topics, present_iff parts t)

assert_topics_safe : (parts topics : List String) → assert_topics parts topics ≢ index_out_of_range
unfolding assert_topics
assert_topics_safe parts [] = ground arith
assert_topics_safe parts (t ∷ topics) = ground (arith, assert_topics_safe parts topics)

-- The metadata was read, and names every topic.
abbrev pub Sees : List String → List String ⊎ String → Type 0
Sees topics (inr err) = ⊥
Sees topics (inl parts) = All (Names parts) topics

check_parts_lem :
    (topics : List String) (read : List String ⊎ String)
    → ((check_parts topics read ≡ passed) ↔ Sees topics read)
      × (check_parts topics read ≢ index_out_of_range)
unfolding check_parts
check_parts_lem topics (inr err) = ground arith
check_parts_lem topics (inl parts) =
    (assert_topics_iff parts topics, assert_topics_safe parts topics)

-- A pinger that was constructed never indexes out of range; its ping succeeds exactly where the
-- first broker is dialled, whatever the other brokers do, the deadline (if any) is set, and the
-- metadata names every topic.
pub ping_iff :
    (k : Client) (b : String) (brokers topics : List String) (tls : Bool) (p : MetadataPinger)
    → new_metadata_pinger (b ∷ brokers) topics tls ≡ inl p
    → (ping k p ≢ index_out_of_range)
      × ((ping k p ≡ passed) ↔ (
          (k.dial b ≡ none) × (deadline_error k ≡ none) × Sees topics (k.read_partitions topics)))
unfolding ping new_metadata_pinger
ping_iff k b brokers [] tls p e = cc
ping_iff k b brokers (t ∷ topics) tls p e =
    let (iff, bound) = check_parts_lem (t ∷ topics) (k.read_partitions (t ∷ topics)) in ground arith
