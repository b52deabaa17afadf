-- ===== src/Redis.antt =====
-- The Redis client behind app/core/redis.py, which the repository only calls: string values under
-- string keys that expire, with the documented behaviour of SET with EX, GET and DEL.
pub mod Memory
use rooti_server.Base.{ℕ, ◌+◌, ◌≡◌, Option, none, some, String, str_eq, ltb, if◌then◌else◌}

pub record Redis : Type 1 where
  pub Store : Type 0
  -- `get key now`: the value that has not expired
  pub get : String → ℕ → Store → Option String
  -- `set key value ttl now`
  pub set : String → String → ℕ → ℕ → Store → Store
  pub del : String → Store → Store
  pub get-set :
      (key value : String) (ttl now : ℕ) (s : Store) (other : String) (later : ℕ)
      → get other later (set key value ttl now s) ≡ (
          if str_eq key other
          then (if ltb later (now + ttl) then some value else none)
          else get other later s)
  pub get-del :
      (key : String) (s : Store) (other : String) (later : ℕ)
      → get other later (del key s) ≡ (if str_eq key other then none else get other later s)
