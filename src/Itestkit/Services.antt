-- ===== src/Itestkit/Services.antt =====
-- itestkit: what the six starters share: the loop over the instances of a service, what happens to a
-- container whose details cannot be read, and the termination of a service's instances.
pub mod Postgres
pub mod Clickhouse
pub mod Redis
pub mod Kafka
pub mod Localstack
pub mod Mockserver
pub mod Laws
pub mod Starters
pub mod Histories
use Prim.Native.String.{◌++◌, char_at}
use aeternixth_go_lib.Prelude.{
  ℕ, ◌-◌, Bool, true, false, String, codes, List, [], ◌∷◌, Option, none, some, ◌⊎◌, inl, inr,
  str_eq, if◌then◌else◌,
}
use aeternixth_go_lib.Prelude
use aeternixth_go_lib.Itestkit.Docker.{
  Client, Customizer, alias, env, config_file, Docker, Image, terminate, run_container, on_result,
}
use aeternixth_go_lib.Itestkit.Names.{normalize_identifier}

-- A text of printable ASCII characters.
unfoldable pub of_ascii : List ℕ → String
of_ascii [] = ""
of_ascii (c ∷ s) =
    String.◌∷◌
      (char_at
        " !\"#$%&'()*+,-./0123456789:;<=>?@ABCDEFGHIJKLMNOPQRSTUVWXYZ[\\]^_`abcdefghijklmnopqrstuvwxyz{|}~"
        (c - 32))
      (of_ascii s)

abbrev pub normalized : String → String
normalized s = of_ascii (normalize_identifier (codes s))

-- `defaultDatabaseName`
unfoldable pub default_database_name : String → String → String
default_database_name project instance =
    normalized project ++ ("_" ++ (normalized instance ++ "_test"))

abbrev pub or_default : String → String → String
or_default s d = if str_eq s "" then d else s

-- The alias on the stack's network, where it has one.
abbrev pub network_alias : Bool → String → List Customizer
network_alias net name = if net then alias name ∷ [] else []

abbrev pub extra_env : List (String × String) → List Customizer
extra_env [] = []
extra_env (v ∷ vs) = env (v ∷ vs) ∷ []

abbrev pub absolute_config : Client → String → List Customizer ⊎ String
absolute_config k file = if str_eq file "" then inl [] else elim (k.abs file) [
  | inl path ↦ inl (config_file path ∷ [])
  | inr err ↦ inr ("config file " ++ (file ++ (": " ++ err)))
]

abbrev pub consed : String → List String ⊎ String → List String ⊎ String
consed path (inl paths) = inl (path ∷ paths)
consed path (inr err) = inr err

-- The absolute paths of the init scripts, up to the first that has none.
unfoldable pub absolute_scripts : Client → List String → List String ⊎ String
absolute_scripts k [] = inl []
absolute_scripts k (script ∷ rest) = elim (k.abs script) [
  | inl path ↦ consed path (absolute_scripts k rest)
  | inr err ↦ inr ("init script " ++ (script ++ (": " ++ err)))
]

module _ {Res : Type 0} where
  abbrev then_run :
      Client
      → Image
      → String
      → (ℕ → Docker → (Res ⊎ String) × Docker)
      → List Customizer ⊎ String
      → Docker
      → (Res ⊎ String) × Docker
  then_run k kind image body (inr err) d = (inr err, d)
  then_run k kind image body (inl customizers) d =
      on_result body (λ err d'. (inr err, d')) (run_container k kind image customizers d)

  -- The end of every starter: an error in the customizers starts nothing; else the container runs,
  -- and `body` reads its details.
  unfoldable pub start_container :
      Client
      → Image
      → String
      → List Customizer ⊎ String
      → (ℕ → Docker → (Res ⊎ String) × Docker)
      → Docker
      → (Res ⊎ String) × Docker
  unfolding run_container
  start_container k kind image customizers body d = then_run k kind image body customizers d

  -- `terminatePostgres` and the others, over the resources' containers
  unfoldable pub terminate_all : (Res → ℕ) → Bool → List (String × Res) → Docker → Docker
  terminate_all container keep [] d = d
  terminate_all container keep ((name, r) ∷ rest) d =
      terminate_all container keep rest (if keep then d else terminate (container r) d)

module _ {Cfg Res : Type 0} (container : Res → ℕ) (keep : Bool) (what : String)
    (start_one : String → Cfg → Docker → (Res ⊎ String) × Docker) where
  -- The loop of `startPostgres` and the others, on what it has started so far.
  unfoldable pub start_all :
      List (String × Cfg) → List (String × Res) → Docker → (List (String × Res) ⊎ String) × Docker
  unfolding terminate_all
  start_all [] out d = (inl out, d)
  start_all ((name, cfg) ∷ rest) out d =
      on_result (λ r. start_all rest (Prelude.◌++◌ out ((name, r) ∷ [])))
        (λ err d'. (
          inr ("start " ++ (what ++ ("[" ++ (name ++ ("]: " ++ err))))),
          terminate_all container keep out d',
        ))
        (start_one name cfg d)
