-- ===== src/Journals/Endpoints.antt =====
-- The journal and bulk mail endpoints of app/api/v1/work_journals.py. A background task is a value,
-- which the server runs after the response.
use rooti_server.Base.{ℕ, Bool, false, Option, none, some, List, String, if◌then◌else◌}
use rooti_server.Exec.{Exec, pure, ◌>>=◌, ◌>>◌}
use rooti_server.Sql.{Sql}
use rooti_server.Redis.{Redis}
use rooti_server.Models.Enums.{JournalFormat, pdf}
use rooti_server.World.{World}
use rooti_server.Tenant.{assert_company, resolve_company_filter}
use rooti_server.Security.{Settings, PrincipalDetails}
use rooti_server.Deps.{get_company_scope}
use rooti_server.Journals.{Bytes, Mailing, render}
use rooti_server.Journals.Bulk.{BulkPreviewResponse, preview}
use rooti_server.Journals.Jobs.{BulkEmailJobResponse, create_job, get_job, list_jobs}

pub record BulkEmailRequest : Type 0 where
  pub company_id : ℕ
  pub date : ℕ
  pub recipient_email : String
  pub format : JournalFormat

-- `run_bulk_email_job`, or `run_bulk_email_inert`, which sends and rolls back
pub data Task : Type 0 where
  run_bulk_email_job : ℕ → Task
  run_bulk_email_inert : BulkEmailRequest → Task

pub record BulkEmailResult : Type 0 where
  pub sent : Bool
  pub schedule_count : ℕ
  pub recipient_email : String
  pub job_id : Option ℕ

abbrev pub queued_result : BulkEmailRequest → Option ℕ → BulkEmailResult
queued_result req job_id = record {
  sent = false;
  schedule_count = 0;
  recipient_email = req.recipient_email;
  job_id = job_id;
}

module _ ⦃sql : Sql⦄ ⦃redis : Redis⦄ ⦃settings : Settings⦄ where
  record_job : BulkEmailRequest → PrincipalDetails → Exec World (BulkEmailResult × Task)
  record_job req me = do
    job ← create_job req.company_id req.date req.recipient_email req.format (some me.user_id)
    pure (queued_result req (some job.id), run_bulk_email_job job.id)

  pub bulk_email : BulkEmailRequest → PrincipalDetails → Exec World (BulkEmailResult × Task)
  unfolding record_job
  bulk_email req me = do
    scope ← get_company_scope me
    assert_company scope (some req.company_id)
    if settings.app_read_only
        then pure (queued_result req none, run_bulk_email_inert req)
        else record_job req me

module _ ⦃sql : Sql⦄ ⦃redis : Redis⦄ where
  pub list_bulk_email_jobs :
      Option ℕ → ℕ → PrincipalDetails → Exec World (List BulkEmailJobResponse)
  list_bulk_email_jobs requested limit me = do
    scope ← get_company_scope me
    company_id ← resolve_company_filter scope requested
    list_jobs company_id limit

  pub get_bulk_email_job : ℕ → PrincipalDetails → Exec World BulkEmailJobResponse
  get_bulk_email_job job_id me = do scope ← get_company_scope me; get_job job_id scope

module _ ⦃sql : Sql⦄ ⦃redis : Redis⦄ ⦃mailing : Mailing⦄ where
  pub download_file : ℕ → JournalFormat → PrincipalDetails → Exec World Bytes
  download_file schedule_id fmt me = do scope ← get_company_scope me; render schedule_id fmt scope

  pub download_pdf : ℕ → PrincipalDetails → Exec World Bytes
  download_pdf schedule_id me = do scope ← get_company_scope me; render schedule_id pdf scope

  pub bulk_preview : ℕ → ℕ → PrincipalDetails → Exec World BulkPreviewResponse
  bulk_preview company_id day me = do
    scope ← get_company_scope me
    assert_company scope (some company_id)
    preview company_id day
