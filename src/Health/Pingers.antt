-- ===== src/Health/Pingers.antt =====
-- observability/health/healthgorm and healthredis: the pingers of a database and of Redis, as the
-- readiness checks of Health call them. GORM's and go-redis's answers are parameters.
use Prim.Native.String.{◌++◌}
use aeternixth_go_lib.Prelude.{String, Option, none, some, ◌⊎◌, inl, inr}
use aeternixth_go_lib.Health.{Context, Pinger}

-- `gorm.DB` and `redis.Client`: what they answer in a context, as an error's text or nil.
pub record Gorm : Type 0 where
  pub sql_db : Option String
  pub ping_context : Context → Option String

pub record RedisClient : Type 0 where
  pub ping_command : Context → Option String

pub data NilError : Type 0 where
  nil_db nil_client : NilError

-- `healthgorm.NewPinger`, whose pinger holds the database
unfoldable pub new_gorm_pinger : Option Gorm → Gorm ⊎ NilError
new_gorm_pinger none = inr nil_db
new_gorm_pinger (some db) = inl db

-- `healthredis.NewPinger`
unfoldable pub new_redis_pinger : Option RedisClient → RedisClient ⊎ NilError
new_redis_pinger none = inr nil_client
new_redis_pinger (some client) = inl client

-- `fmt.Errorf` with a label and `%w`
abbrev labelled : String → Option String → Option String
labelled label none = none
labelled label (some err) = some (label ++ err)

-- `Ping` of healthgorm
unfoldable pub gorm_ping : Gorm → Pinger
gorm_ping db ctx = elim db.sql_db [
  | some err ↦ some ("healthgorm: resolve sql.DB: " ++ err)
  | none ↦ labelled "healthgorm: " (db.ping_context ctx)
]

-- `Ping` of healthredis
unfoldable pub redis_ping : RedisClient → Pinger
redis_ping client ctx = labelled "healthredis: " (client.ping_command ctx)
