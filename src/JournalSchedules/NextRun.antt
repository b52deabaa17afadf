-- ===== src/JournalSchedules/NextRun.antt =====
-- When a schedule runs next.
use rooti_server.Base.{ℕ, ◌+◌, ◌*◌, ◌%◌, ◌≤◌, ◌<◌, ◌≡◌, arith, String}
use rooti_server.Exec.{ok}
use rooti_server.Sql.{Sql}
use rooti_server.Redis.{Redis}
use rooti_server.World.{World}
use rooti_server.JournalSchedules.{hour_minute, next_at, compute_next_run}

next_at_bounds :
    (h m now : ℕ)
    → h ≤ 23
    → m ≤ 59
    → (now ≤ next_at h m now)
      × (next_at h m now < now + 86400)
      × (next_at h m now % 86400 ≡ h * 3600 + m * 60)
next_at_bounds h m now hour minute = (ground arith, ground arith, ground arith)

module _ ⦃sql : Sql⦄ ⦃redis : Redis⦄ where
  -- A next run that is computed is not in the past, lies less than a day ahead, and is at the hour
  -- and minute of the text.
  pub compute_next_run_bounds :
      (time : String) (w w' : World) (next : ℕ)
      → compute_next_run time w ≡ (ok next, w')
      → (w.now ≤ next)
        × (next < w.now + 86400)
        × (next % 86400 ≡ (hour_minute time).0 * 3600 + (hour_minute time).1 * 60)
  unfolding compute_next_run
  compute_next_run_bounds time w w' next h =
      let bounds = next_at_bounds (hour_minute time).0 (hour_minute time).1 w.now in
      (ground (arith, bounds), ground (arith, bounds), ground (arith, bounds))
