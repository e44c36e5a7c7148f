-- ===== src/Itestkit/Services/Localstack.antt =====
-- itestkit/localstack.go: `startLocalStack`. The init scripts run in a later phase of the stack.
use Prim.Native.String.{◌++◌}
use aeternixth_go_lib.Prelude.{ℕ, Bool, String, List, [], ◌∷◌, ◌⊎◌, inl}
use aeternixth_go_lib.Prelude.{insert, insert_all}
use aeternixth_go_lib.Itestkit.Options.{LocalStackOptions}
use aeternixth_go_lib.Itestkit.Docker.{Client, Customizer, env, Docker, local_image, or_terminate}
use aeternixth_go_lib.Itestkit.Services.{or_default, network_alias, start_container, start_all}

pub record LocalStackResource : Type 0 where
  pub name : String
  pub endpoint : String
  pub region : String
  pub access_key_id : String
  pub secret_access_key : String
  pub container : ℕ

-- `strings.Join(parts, ",")`
unfoldable pub join_commas : List String → String
join_commas [] = ""
join_commas (part ∷ []) = part
join_commas (part ∷ next ∷ rest) = part ++ ("," ++ join_commas (next ∷ rest))

abbrev local_region : LocalStackOptions → String
local_region cfg = or_default cfg.region "ap-southeast-1"

abbrev with_services : List String → List (String × String) → List (String × String)
with_services [] vars = vars
with_services (s ∷ services) vars = insert "SERVICES" (join_commas (s ∷ services)) vars

-- The environment: the region under two names, the services, and then what the options add.
unfoldable pub local_env : LocalStackOptions → List (String × String)
unfolding join_commas
local_env cfg = insert_all cfg.extra_env (
    with_services cfg.services
      (("DEFAULT_REGION", local_region cfg) ∷ ("AWS_DEFAULT_REGION", local_region cfg) ∷ []))

module _ (k : Client) (net : Bool) where
  unfoldable pub localstack_customizers : String → LocalStackOptions → List Customizer ⊎ String
  unfolding local_env
  localstack_customizers name cfg =
      inl (env (local_env cfg) ∷ network_alias net ("localstack-" ++ name))

  -- The end of `startOneLocalStack`: the endpoint and the resource.
  abbrev pub localstack_resource :
      String → LocalStackOptions → ℕ → Docker → (LocalStackResource ⊎ String) × Docker
  localstack_resource name cfg c d1 =
      or_terminate c (λ e. "endpoint: " ++ e) d1 (k.port_endpoint c)
        (λ endpoint. (
          inl (record {
            name = name;
            endpoint = endpoint;
            region = local_region cfg;
            access_key_id = "test";
            secret_access_key = "test";
            container = c;
          }),
          d1,
        ))

  -- `startOneLocalStack`
  unfoldable pub start_one_localstack :
      String → LocalStackOptions → Docker → (LocalStackResource ⊎ String) × Docker
  unfolding start_container localstack_customizers
  start_one_localstack name cfg d =
      start_container k local_image (or_default cfg.image "localstack/localstack:3.8")
        (localstack_customizers name cfg) (localstack_resource name cfg) d

  -- `startLocalStack`
  unfoldable pub start_localstack :
      Bool
      → List (String × LocalStackOptions)
      → Docker
      → (List (String × LocalStackResource) ⊎ String) × Docker
  unfolding start_all start_one_localstack
  start_localstack keep cfgs d =
      start_all (λ r. r.container) keep "localstack" start_one_localstack cfgs [] d
