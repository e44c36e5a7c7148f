-- ===== src/Itestkit/Services/Redis.antt =====
-- itestkit/redis.go.
use Prim.Native.String.{◌++◌}
use aeternixth_go_lib.Prelude.{ℕ, Bool, String, List, [], ◌∷◌, map, ◌⊎◌, inl, inr, if◌then◌else◌}
use aeternixth_go_lib.Prelude
use aeternixth_go_lib.Itestkit.Options.{RedisOptions}
use aeternixth_go_lib.Itestkit.Docker.{Client, Customizer, tls, Docker, redis_image, or_terminate}
use aeternixth_go_lib.Itestkit.Services.{
  or_default, network_alias, extra_env, absolute_config, start_container, start_all,
}

pub record RedisResource : Type 0 where
  pub name : String
  pub addr : String
  pub url : String
  pub host : String
  pub port : String
  pub container : ℕ

module _ (k : Client) (net : Bool) where
  unfoldable pub redis_customizers : String → RedisOptions → List Customizer ⊎ String
  redis_customizers name cfg = elim (absolute_config k cfg.config_file) [
    | inr err ↦ inr err
    | inl config ↦ inl (
        Prelude.◌++◌ config (
          Prelude.◌++◌ (if cfg.use_tls then tls ∷ [] else [])
            (Prelude.◌++◌ (network_alias net ("redis-" ++ name)) (extra_env cfg.extra_env))))
  ]

  -- `startOneRedis`
  unfoldable pub start_one_redis :
      String → RedisOptions → Docker → (RedisResource ⊎ String) × Docker
  unfolding start_container redis_customizers
  start_one_redis name cfg d =
      start_container k redis_image (or_default cfg.image "redis:7-alpine")
        (redis_customizers name cfg)
        (λ c d1.
          or_terminate c (λ e. "host: " ++ e) d1 (k.host c)
            (λ host.
              or_terminate c (λ e. "mapped port: " ++ e) d1 (k.mapped_port c "6379/tcp")
                (λ port.
                  let addr = host ++ (":" ++ port) in
                  (
                    inl (record {
                      name = name;
                      addr = addr;
                      url = (if cfg.use_tls then "rediss" else "redis") ++ ("://" ++ addr);
                      host = host;
                      port = port;
                      container = c;
                    }),
                    d1,
                  ))))
        d

  -- `startRedis`
  unfoldable pub start_redis :
      Bool
      → List (String × RedisOptions)
      → Docker
      → (List (String × RedisResource) ⊎ String) × Docker
  unfolding start_all start_one_redis
  start_redis keep cfgs d = start_all (λ r. r.container) keep "redis" start_one_redis cfgs [] d
