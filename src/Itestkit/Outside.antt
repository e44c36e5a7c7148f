-- ===== src/Itestkit/Outside.antt =====
-- The calls that itestkit makes of database drivers, clients and containers, as events. The history
-- lists the events so far, the oldest first; what a call answers depends on it, and is a parameter.
use aeternixth_go_lib.Prelude.{
  ℕ, Bool, String, List, [], ◌∷◌, ◌++◌, Option, none, some, ◌⊎◌, inl, inr,
}
use aeternixth_go_lib.Itestkit.Files.Collect.{FileError}

pub data Database : Type 0 where
  postgres_db clickhouse_db : Database

-- The JSON values of a MockServer expectation.
mutual
  pub data Json : Type 0 where
    json_text : String → Json
    json_number : ℕ → Json
    json_flag : Bool → Json
    json_texts : List String → Json
    object : Members → Json

  pub data Members : Type 0 where
    no_member : Members
    member : String → Json → Members → Members

pub record TopicSpec : Type 0 where
  pub topic : String
  pub num_partitions : ℕ
  pub replication : ℕ
  pub config_entries : List (String × String)

-- `flush_redis` is `FlushAll`, `create_topics` goes to the connection dialled last, and `exec_file`
-- runs a script of a container by bash.
pub data Event : Type 0 where
  open_db ping_db : Database → String → Event
  exec_db : Database → String → List ℕ → Event
  flush_redis : String → Event
  dial_kafka : String → Event
  ask_controller : String → Event
  create_topics : List TopicSpec → Event
  put_expectation : String → Json → Event
  copy_file : ℕ → List ℕ → List ℕ → Event
  exec_file : ℕ → List ℕ → Event

abbrev pub History : Type 0
History = List Event

-- `fails` gives the error's text of a call that fails; the others, what a call that does not fail
-- answers: the controller's address, as `net.JoinHostPort` makes it, the status and the trimmed body
-- of a response, the exit code and the trimmed output of a script. `redis_url` and `http_request` say
-- what is wrong with a URL, if anything. `range` is the order in which the phase of that number
-- ranges over its map of options, which Go leaves open.
pub record Outside : Type 1 where
  pub fails : History → Event → Option String
  pub controller : History → String
  pub http_reply : History → ℕ × List ℕ
  pub exit_code : History → ℕ × List ℕ
  pub redis_url : String → Option String
  pub http_request : String → Option String
  pub range : {A : Type 0} → ℕ → List (String × A) → List (String × A)

-- An error of the setup: `wrap` is `fmt.Errorf` with a text and `%w`; the numbers of `http_status`
-- and `exited` are written in decimals.
pub data Failure : Type 0 where
  outside : String → Failure
  file_error : FileError → Failure
  message : List ℕ → Failure
  http_status : ℕ → List ℕ → Failure
  exited : List ℕ → ℕ → List ℕ → Failure
  wrap : List ℕ → Failure → Failure

-- A part of the setup: it goes on with a value, or ends in an error; its calls are in the history.
abbrev pub Act : Type 0 → Type 0
Act A = History → (A ⊎ Failure) × History

module _ {A : Type 0} where
  abbrev pub pure : A → Act A
  pure a h = (inl a, h)

  abbrev pub fail : Failure → Act A
  fail err h = (inr err, h)

abbrev pub bound : {A B : Type 0} → (A → Act B) → (A ⊎ Failure) × History → (B ⊎ Failure) × History
bound f (inl a, h) = f a h
bound f (inr err, h) = (inr err, h)

infixl 5 ◌>>=◌ ◌>>◌
abbrev pub ◌>>=◌ : {A B : Type 0} → Act A → (A → Act B) → Act B
◌>>=◌ m f h = bound f (m h)

abbrev pub ◌>>◌ : {A B : Type 0} → Act A → Act B → Act B
m >> k = m >>= λ _. k

abbrev pub wrapped :
    {A : Type 0} → (Failure → Failure) → (A ⊎ Failure) × History → (A ⊎ Failure) × History
wrapped w (inl a, h) = (inl a, h)
wrapped w (inr err, h) = (inr (w err), h)

-- `if err := ...; err != nil { return fmt.Errorf(..., err) }`
abbrev pub or_wrap : {A : Type 0} → List ℕ → Act A → Act A
or_wrap label m h = wrapped (wrap label) (m h)

abbrev pub from_file : {A : Type 0} → A ⊎ FileError → Act A
from_file (inl a) = pure a
from_file (inr err) = fail (file_error err)

module _ (out : Outside) where
  abbrev pub answer : Option String → Act (Unit {0})
  answer none = pure tt
  answer (some err) = fail (outside err)

  -- A call: it stands in the history whether it fails or not.
  unfoldable pub call : Event → Act (Unit {0})
  call e h = answer (out.fails h e) (h ++ e ∷ [])

-- A loop of calls that stops at the first error.
unfoldable pub for_each : {A : Type 0} → (A → Act (Unit {0})) → List A → Act (Unit {0})
for_each body [] = pure tt
for_each body (a ∷ rest) = body a >> for_each body rest
