-- ===== src/Schedules/Window.antt =====
-- Which schedules a worker's list shows.
use rooti_server.Base.{
  ℕ, ◌+◌, ◌-◌, ◌/◌, ◌≤◌, ◌≡◌, ◌≢◌, ◌↔◌, true, false, ◌&&◌, some, List, arith, ltb, ◌==◌, In,
}
use rooti_server.Exec.{Result, ok, err}
use rooti_server.Sql.{Sql, asc}
use rooti_server.Sql.Query.{inner_join, In-inner_join, In-inner_join-In}
use rooti_server.Redis.{Redis}
use rooti_server.Models.{WorkSchedule, JobStandard}
use rooti_server.World.{World}
use rooti_server.Schedules.{
  ScheduleResponse, micros_per_day, last_moment, schedule_row, by_start, in_window,
  list_for_job_worker,
}

-- A time is in the window exactly when its date is one of the days and it is not the last moment.
in_window_date :
    (since until t : ℕ)
    → (in_window since until t ≡ true)
      ↔ ((since ≤ t / micros_per_day) × (t / micros_per_day ≤ until) × (t ≢ last_moment until))
in_window_date since until t =
    (λ h. (ground arith, ground arith, ground arith), λ (lower, upper, earlier). ground arith)

module _ ⦃sql : Sql⦄ ⦃redis : Redis⦄ where
  abbrev pub shown_response : ℕ → WorkSchedule → JobStandard → ScheduleResponse
  shown_response id s standard = record {
    id = id;
    schedule = s;
    job_standard_name = some standard.name;
  }

  abbrev pub Shows : ScheduleResponse → Result (List ScheduleResponse) → Type 0
  Shows r (ok rows) = In r rows
  Shows r (err e) = ⊥

  -- Over a span of at most 31 days the list of a job worker shows a stored schedule, whose standard
  -- exists, exactly when it is the worker's, the date of its start is one of the days from the first
  -- to the last, and it does not start in the last microsecond of the last day.
  pub list_for_job_worker_exact :
      (job_worker since until id : ℕ) (s : WorkSchedule) (standard : JobStandard) (w : World)
      → sql.get id w.schedules ≡ some s
      → sql.get s.job_standard_id w.job_standards ≡ some standard
      → until ≤ 31 + since
      → Shows (shown_response id s standard) (list_for_job_worker job_worker since until w).0 ↔ (
          (s.job_worker_id ≡ job_worker)
          × (since ≤ s.start_at / micros_per_day)
          × (s.start_at / micros_per_day ≤ until)
          × (s.start_at ≢ last_moment until))
  unfolding list_for_job_worker
  list_for_job_worker_exact job_worker since until id s standard w found known short =
      let p = λ (k : ℕ) (x : WorkSchedule).
        x.job_worker_id == job_worker && in_window since until x.start_at in
      let rows = inner_join (schedule_row w) (sql.select p w.schedules) in
      let r = shown_response id s standard in
      let dates = in_window_date since until s.start_at in
      let e : ltb 31 (until - since) ≡ false = ground arith in
      (
        λ shown.
            let (row, selected, joined) =
              In-inner_join (schedule_row w) (sql.select p w.schedules) r
                (sql.In-order_by asc by_start rows r (rw e at shown)) in
            let sound = sql.select_sound p w.schedules row.0 row.1 selected in
            let passes : p id s ≡ true = ground (arith, sound, joined) in
            let days = dates.0 (ground (arith, passes)) in
            (ground (arith, passes), days.0, days.1, days.2),
        λ (same, lower, upper, earlier). rw e (
            sql.In_order_by_In asc by_start rows r (
              In-inner_join-In (schedule_row w) (sql.select p w.schedules) (id, s) r
                (sql.select_complete p w.schedules id s found
                  (ground (arith, dates.1 (lower, upper, earlier))))
                (ground (arith, known)))),
      )
