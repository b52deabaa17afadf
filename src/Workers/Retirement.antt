-- ===== src/Workers/Retirement.antt =====
-- Retirement keeps the first time, and rehiring undoes it.
use rooti_server.Base.{ℕ, ◌≡◌, inl, inr, none, some, arith, Option-cases}
use rooti_server.Sql.{Sql}
use rooti_server.Redis.{Redis}
use rooti_server.Models.{ChallengedWorker, User}
use rooti_server.World.{World}
use rooti_server.Workers.{retire, rehire}

module _ ⦃sql : Sql⦄ ⦃redis : Redis⦄ where
  -- For a worker whose user exists, retiring sets the time once: however late it is asked for again,
  -- the stored row and the response stay the same; rehiring then clears the time and nothing else of
  -- the row.
  pub retire_once :
      (id later : ℕ) (w : World) (worker : ChallengedWorker) (user : User)
      → sql.get id w.workers ≡ some worker
      → sql.get worker.user_id w.users ≡ some user
      → let w' = (retire id w).1 in
        let w'' = (retire id (record w' { now = later })).1 in
        (sql.get id w''.workers ≡ sql.get id w'.workers)
        × (sql.get id (rehire id w'').1.workers ≡ some (record worker { retired_at = none }))
        × ((retire id (record w' { now = later })).0 ≡ (retire id w).0)
  unfolding retire rehire
  retire_once id later w worker user found known = elim (Option-cases worker.retired_at) [
    | inl e ↦
        let retired = record worker { retired_at = some w.now } in
        let t' = sql.update id retired w.workers in
        let at = sql.get-update id retired w.workers id in
        let at2 = sql.get-update id retired t' id in
        let at3 =
          sql.get-update id (record worker { retired_at = none }) (sql.update id retired t') id in
        (ground (arith, at, at2), ground (arith, at, at2, at3), ground (arith, at))
    | inr (t, e) ↦
        let t' = sql.update id worker w.workers in
        let at = sql.get-update id worker w.workers id in
        let at2 = sql.get-update id worker t' id in
        let at3 =
          sql.get-update id (record worker { retired_at = none }) (sql.update id worker t') id in
        (ground (arith, at, at2), ground (arith, at, at2, at3), ground (arith, at))
  ]
