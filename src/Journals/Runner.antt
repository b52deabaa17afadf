-- ===== src/Journals/Runner.antt =====
-- The background runner: how its job ends, also when the database fails it.
use rooti_server.Base.{
  ℕ, ◌≡◌, ◌≢◌, refl, inl, inr, ◌⊎◌, Option, none, some, arith, true, Option-cases,
}
use rooti_server.Errors.{Exn}
use rooti_server.Exec.{Result, ok, err}
use rooti_server.Sql.{Sql}
use rooti_server.Redis.{Redis}
use rooti_server.Models.{BulkEmailJob}
use rooti_server.Models.Enums.{success, failed}
use rooti_server.World.{World}
use rooti_server.Journals.{Mailing}
use rooti_server.Journals.Bulk.{BulkResult}
use rooti_server.Journals.Jobs.{
  SessionFaults, started, finished, mark_sending, complete_job, run_bulk_email_job,
}
use rooti_server.Journals.Rows.{outcome, mark_sending-row, complete_job-row}

module _ ⦃sql : Sql⦄ ⦃redis : Redis⦄ ⦃mailing : Mailing⦄ where
  mark_sending-found :
      (id : ℕ) (job : BulkEmailJob) (w : World)
      → sql.get id w.bulk_email_jobs ≡ some job
      → ((mark_sending id w).0 ≡ ok true) × ((mark_sending id w).1.now ≡ w.now)
  unfolding mark_sending
  mark_sending-found id job w found = (ground arith, ground arith)

  complete_job-ok : (id : ℕ) (w : World) → (complete_job id w).0 ≡ ok tt
  unfolding complete_job
  complete_job-ok id w = ground arith

  finished_lem :
      (job : BulkEmailJob) (result : Result BulkResult) (now : ℕ)
      → (((finished job result now).status ≡ success) ⊎ ((finished job result now).status ≡ failed))
        × ((finished job result now).started_at ≡ job.started_at)
        × ((finished job result now).finished_at ≡ some now)
  unfolding finished
  finished_lem job (ok r) now = (inl refl, refl, refl)
  finished_lem job (err e) now = (inr refl, refl, refl)

  faulty_mark :
      (faults : SessionFaults) (id : ℕ) (job : BulkEmailJob) (w : World) (e : Exn)
      → sql.get id w.bulk_email_jobs ≡ some job
      → faults.marking ≡ some e
      → run_bulk_email_job faults id w ≡ w
  unfolding run_bulk_email_job
  faulty_mark faults id job w e found fault = ground (arith, mark_sending-found id job w found)

  faulty_completion :
      (faults : SessionFaults) (id : ℕ) (job : BulkEmailJob) (w : World) (e : Exn)
      → sql.get id w.bulk_email_jobs ≡ some job
      → faults.marking ≡ none
      → faults.completing ≡ some e
      → run_bulk_email_job faults id w ≡ (mark_sending id w).1
  unfolding run_bulk_email_job
  faulty_completion faults id job w e found marked fault =
      ground (arith, mark_sending-found id job w found, complete_job-ok id (mark_sending id w).1)

  faultless :
      (faults : SessionFaults) (id : ℕ) (job : BulkEmailJob) (w : World)
      → sql.get id w.bulk_email_jobs ≡ some job
      → faults.marking ≡ none
      → faults.completing ≡ none
      → run_bulk_email_job faults id w ≡ (complete_job id (mark_sending id w).1).1
  unfolding run_bulk_email_job
  faultless faults id job w found marked completed =
      ground (arith, mark_sending-found id job w found, complete_job-ok id (mark_sending id w).1)

  -- A job that ended: as a success or a failure, with both times.
  abbrev pub IsEnded : ℕ → BulkEmailJob → Type 0
  IsEnded now job =
      ((job.status ≡ success) ⊎ (job.status ≡ failed))
      × (job.started_at ≡ some now)
      × (job.finished_at ≡ some now)

  -- What the runner leaves of its job, by the faults of the database.
  abbrev pub Leaves : SessionFaults → BulkEmailJob → Option BulkEmailJob → ℕ → Type 0
  Leaves faults job left now =
      ((e : Exn) × (faults.marking ≡ some e) × (left ≡ some job))
      ⊎ ((e : Exn) × (faults.marking ≡ none)
          × (faults.completing ≡ some e)
          × (left ≡ some (started job now)))
      ⊎ ((job' : BulkEmailJob) × (faults.marking ≡ none)
          × (faults.completing ≡ none)
          × (left ≡ some job')
          × IsEnded now job')

  complete_job-IsEnded :
      (id : ℕ) (job : BulkEmailJob) (w : World)
      → sql.get id w.bulk_email_jobs ≡ some job
      → (job' : BulkEmailJob) × (sql.get id
            (complete_job id (mark_sending id w).1).1.bulk_email_jobs
          ≡ some job')
        × IsEnded w.now job'
  unfolding started
  complete_job-IsEnded id job w found =
      let m = (mark_sending id w).1 in
      let marked = started job w.now in
      let now = (mark_sending-found id job w found).1 in
      let (a, b, c) = finished_lem marked (outcome m marked) m.now in
      let g : sql.get id m.bulk_email_jobs ≡ some marked =
        ground (arith, mark_sending-row id w id) in
      (
        finished marked (outcome m marked) m.now,
        ground (arith, complete_job-row id m id),
        (a, b, ground arith),
      )

  -- Whatever rendering and mail do, the runner of a job that is there ends it as a success or a
  -- failure with both times set, if the database takes its two writes. If the database refuses the
  -- first one, the job is as it was; if it refuses the second one, the job stays SENDING, without a
  -- reason. Every other job is as before in each case.
  pub run_bulk_email_job-ends :
      (faults : SessionFaults) (id : ℕ) (job : BulkEmailJob) (w : World) (other : ℕ)
      → sql.get id w.bulk_email_jobs ≡ some job
      → id ≢ other
      → Leaves faults job (sql.get id (run_bulk_email_job faults id w).bulk_email_jobs) w.now
        × (sql.get other (run_bulk_email_job faults id w).bulk_email_jobs
            ≡ sql.get other w.bulk_email_jobs)
  run_bulk_email_job-ends faults id job w other found differ =
      let m = (mark_sending id w).1 in
      elim (Option-cases faults.marking) [
        | inr (e, fault) ↦
            rw (faulty_mark faults id job w e found fault) (inl (e, fault, found), refl)
        | inl marked ↦ elim (Option-cases faults.completing) [
          | inr (e, fault) ↦ rw (faulty_completion faults id job w e found marked fault) (
            inr (inl (e, marked, fault, ground (arith, mark_sending-row id w id))),
            ground (arith, mark_sending-row id w other),
          )
          | inl completed ↦
              let (job', row, ended) = complete_job-IsEnded id job w found in
              rw (faultless faults id job w found marked completed) (
                inr (inr (job', marked, completed, row, ended)),
                ground (arith, complete_job-row id m other, mark_sending-row id w other),
              )
        ]
      ]
