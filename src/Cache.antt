-- ===== src/Cache.antt =====
-- app/core/cache.py: Pydantic models as JSON text under keys of Redis. Redis being out of reach is a
-- miss, as an expired key is.
pub mod Fields
pub mod Keys
pub mod Sample
use Prim.Native.String.{◌++◌ as str_append}
use rooti_server.Base.{ℕ, ◌≡◌, Bool, Option, none, some, String}
use rooti_server.Exec.{Exec, gets, modify}
use rooti_server.Sql.{Sql}
use rooti_server.Redis.{Redis}
use rooti_server.World.{World}
use rooti_server.Text.Decimal.{str_of}
use rooti_server.Cache.Fields.{Members}

-- The JSON encoder and decoder of Pydantic: what was encoded is decoded.
pub record Json : Type 0 where
  pub dumps : Members → String
  pub loads : String → Option Members
  pub loads-dumps : (o : Members) → loads (dumps o) ≡ some o

-- A Pydantic model class: `model_dump(by_alias=True)` and the validation of a JSON object. What is
-- read back from a dump, if it is read back at all, is the model that was dumped.
pub record Model (A : Type 0) : Type 0 where
  pub dump : A → Members
  pub validate : Members → Option A
  pub validate-dump : (a b : A) → validate (dump a) ≡ some b → b ≡ a

unfoldable pub cache_key : String → ℕ → String
cache_key ns key = str_append "rooti:cache:" (str_append ns (str_append ":" (str_of key)))

module _ ⦃sql : Sql⦄ ⦃redis : Redis⦄ ⦃json : Json⦄ {A : Type 0} ⦃model : Model A⦄ where
  -- `model_cls.model_validate_json(raw)`, `none` for an exception
  abbrev pub model_validate_json : String → Option A
  model_validate_json raw = elim (json.loads raw) [ none ↦ none | some o ↦ model.validate o ]

  unfoldable pub get_model : String → ℕ → Exec World (Option A)
  get_model ns key = gets (λ w. elim (redis.get (cache_key ns key) w.now w.store) [
    | none ↦ none
    | some raw ↦ model_validate_json raw
  ])

  unfoldable pub set_model : A → String → ℕ → ℕ → Exec World (Unit {0})
  set_model a ns key ttl_seconds = modify (λ w. record w {
    store = redis.set (cache_key ns key) (json.dumps (model.dump a)) ttl_seconds w.now w.store;
  })

module _ ⦃sql : Sql⦄ ⦃redis : Redis⦄ where
  unfoldable pub evict : String → ℕ → Exec World (Unit {0})
  evict ns key = modify (λ w. record w { store = redis.del (cache_key ns key) w.store })
