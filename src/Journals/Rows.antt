-- ===== src/Journals/Rows.antt =====
-- The row of a bulk mail job after each step.
use rooti_server.Base.{
  ℕ, ◌≡◌, inl, inr, Option, none, some, arith, String, ◌==◌, if◌then◌else◌, Option-cases,
}
use rooti_server.Exec.{Result, ok}
use rooti_server.Sql.{Sql}
use rooti_server.Redis.{Redis}
use rooti_server.Models.{BulkEmailJob}
use rooti_server.Models.Enums.{JournalFormat}
use rooti_server.World.{World}
use rooti_server.Journals.{Mailing}
use rooti_server.Journals.Bulk.{BulkResult, send}
use rooti_server.Journals.Jobs.{
  BulkEmailJobResponse, new_job, started, finished, create_job, mark_sending, complete_job,
}
use rooti_server.Journals.Selection.{send_same}

module _ ⦃sql : Sql⦄ ⦃redis : Redis⦄ ⦃mailing : Mailing⦄ where
  pub create_job-row :
      (company_id day : ℕ) (recipient : String) (fmt : JournalFormat) (requested_by : Option ℕ)
      (w w' : World) (r : BulkEmailJobResponse) (j : ℕ)
      → create_job company_id day recipient fmt requested_by w ≡ (ok r, w')
      → sql.get j w'.bulk_email_jobs ≡ (
          if r.id == j
          then some (new_job company_id day recipient fmt requested_by)
          else sql.get j w.bulk_email_jobs)
  unfolding create_job
  create_job-row company_id day recipient fmt requested_by w w' r j h =
      elim (Option-cases
        (sql.insert (new_job company_id day recipient fmt requested_by) w.bulk_email_jobs)) [
          | inl refused ↦ ground arith
          | inr ((id, t), e) ↦
              let g =
                sql.get-insert (new_job company_id day recipient fmt requested_by) w.bulk_email_jobs
                  id t j e in
              ground (arith)
        ]

  pub mark_sending-row :
      (id : ℕ) (w : World) (j : ℕ)
      → sql.get j (mark_sending id w).1.bulk_email_jobs ≡ (
          if id == j
          then elim (sql.get j w.bulk_email_jobs) [
            | none ↦ none
            | some job ↦ some (started job w.now)
          ]
          else sql.get j w.bulk_email_jobs)
  unfolding mark_sending
  mark_sending-row id w j = elim (Option-cases (sql.get id w.bulk_email_jobs)) [
    | inl e ↦ ground arith
    | inr (job, e) ↦ ground (arith, sql.get-update id (started job w.now) w.bulk_email_jobs j)
  ]

  -- What `send` gives for a job.
  abbrev pub outcome : World → BulkEmailJob → Result BulkResult
  outcome w job = (send job.company_id job.target_date job.recipient_email job.format w).0

  pub complete_job-row :
      (id : ℕ) (w : World) (j : ℕ)
      → sql.get j (complete_job id w).1.bulk_email_jobs ≡ (
          if id == j
          then elim (sql.get j w.bulk_email_jobs) [
            | none ↦ none
            | some job ↦ some (finished job (outcome w job) w.now)
          ]
          else sql.get j w.bulk_email_jobs)
  unfolding complete_job
  complete_job-row id w j = elim (Option-cases (sql.get id w.bulk_email_jobs)) [
    | inl e ↦ ground arith
    | inr (job, e) ↦ ground (
      arith,
      send_same job.company_id job.target_date job.recipient_email job.format w,
      sql.get-update id (finished job (outcome w job) w.now) w.bulk_email_jobs j,
    )
  ]
