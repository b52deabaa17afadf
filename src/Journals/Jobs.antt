-- ===== src/Journals/Jobs.antt =====
-- The bulk mail jobs of app/services/document.py: their history and the background runner, which
-- commits between its two steps. The response carries the row and the joined names.
use rooti_server.Base.{
  ℕ, Bool, true, false, Option, none, some, List, take, String, ◌==◌, if◌then◌else◌,
}
use rooti_server.Errors.{Exn, business, resource_not_found}
use rooti_server.Exec.{Result, ok, err, Exec, pure, gets, or_raise, attempt, ◌>>=◌, ◌>>◌}
use rooti_server.Sql.{Sql, desc}
use rooti_server.Sql.Query.{inner_join}
use rooti_server.Redis.{Redis}
use rooti_server.Models.{BulkEmailJob}
use rooti_server.Models.Enums.{JournalFormat, queued, sending, success, failed}
use rooti_server.World.{World, bulk_email_jobs, companies}
use rooti_server.World.Session.{db_get, add, write}
use rooti_server.Tenant.{CompanyScope, assert_company}
use rooti_server.Text.{str_take}
use rooti_server.Leaves.{set_and}
use rooti_server.Journals.{Mailing}
use rooti_server.Journals.Bulk.{BulkResult, send}

pub record BulkEmailJobResponse : Type 0 where
  pub id : ℕ
  pub job : BulkEmailJob
  pub company_name : Option String
  pub requested_by_name : Option String

unfoldable pub new_job : ℕ → ℕ → String → JournalFormat → Option ℕ → BulkEmailJob
new_job company_id day recipient fmt requested_by = record {
  company_id = company_id;
  recipient_email = recipient;
  target_date = day;
  format = fmt;
  status = queued;
  schedule_count = 0;
  truncated = false;
  message_id = none;
  error_message = none;
  requested_by = requested_by;
  started_at = none;
  finished_at = none;
}

unfoldable pub started : BulkEmailJob → ℕ → BulkEmailJob
started job now = record job { status = sending; started_at = some now }

module _ ⦃mailing : Mailing⦄ where
  -- The row after the `try` of `complete_job`.
  unfoldable pub finished : BulkEmailJob → Result BulkResult → ℕ → BulkEmailJob
  finished job (ok r) now = record job {
    schedule_count = r.count;
    message_id = r.message_id;
    truncated = r.truncated;
    status = success;
    finished_at = some now;
  }
  finished job (err e) now = record job {
    status = failed;
    error_message = some (str_take 1000 (mailing.text_of e));
    finished_at = some now;
  }

module _ ⦃sql : Sql⦄ ⦃redis : Redis⦄ where
  unfoldable pub create_job :
      ℕ → ℕ → String → JournalFormat → Option ℕ → Exec World BulkEmailJobResponse
  create_job company_id day recipient fmt requested_by = do
    id ← add bulk_email_jobs (new_job company_id day recipient fmt requested_by)
    company ← db_get companies company_id
    pure (record {
      id = id;
      job = new_job company_id day recipient fmt requested_by;
      company_name = elim company [ none ↦ none | some c ↦ some c.name ];
      requested_by_name = none;
    })

  -- `true` if there was a job to mark.
  unfoldable pub mark_sending : ℕ → Exec World Bool
  mark_sending job_id = do
    found ← db_get bulk_email_jobs job_id
    elim found [
      | none ↦ pure false
      | some job ↦ do
        now ← gets (λ w. w.now)
        write bulk_email_jobs job_id (started job now)
        pure true
    ]

  -- The inner join with the company and the outer join with the requester.
  abbrev pub job_row : World → ℕ × BulkEmailJob → Option BulkEmailJobResponse
  job_row w (id, job) = elim (sql.get job.company_id w.companies) [
    | none ↦ none
    | some company ↦ some (record {
      id = id;
      job = job;
      company_name = some company.name;
      requested_by_name = elim job.requested_by [
        | none ↦ none
        | some user_id ↦ elim (sql.get user_id w.users) [ none ↦ none | some user ↦ some user.name ]
      ];
    })
  ]

  unfoldable pub get_job : ℕ → CompanyScope → Exec World BulkEmailJobResponse
  get_job job_id company_scope = do
    row ← gets (λ w. elim (sql.get job_id w.bulk_email_jobs) [
      | none ↦ none
      | some job ↦ job_row w (job_id, job)
    ])
    response ← or_raise row (business resource_not_found)
    assert_company company_scope (some response.job.company_id)
    pure response

  abbrev pub by_job_id : BulkEmailJobResponse → ℕ
  by_job_id r = r.id

  unfoldable pub list_jobs : Option ℕ → ℕ → Exec World (List BulkEmailJobResponse)
  list_jobs company_id limit = gets (λ w. take limit (
      sql.order_by desc by_job_id (
        inner_join (job_row w)
          (sql.select (λ _ job. set_and company_id (λ c. job.company_id == c)) w.bulk_email_jobs))))

-- How the database answers the runner's two writes: `some e` if the flush of `mark_sending` or the
-- commit after it fails, and the same for `complete_job`.
pub record SessionFaults : Type 0 where
  pub marking : Option Exn
  pub completing : Option Exn

-- `await session.commit()`, where there is something to commit
abbrev pub commit : {S : Type 0} → Option Exn → Bool → Exec S Bool
commit none there s = (ok there, s)
commit (some e) there s = (if there then err e else ok there, s)

module _ ⦃sql : Sql⦄ ⦃redis : Redis⦄ ⦃mailing : Mailing⦄ where
  unfoldable pub complete_job : ℕ → Exec World (Unit {0})
  complete_job job_id = do
    found ← db_get bulk_email_jobs job_id
    elim found [
      | none ↦ pure tt
      | some job ↦ do
        result ← attempt (send job.company_id job.target_date job.recipient_email job.format)
        now ← gets (λ w. w.now)
        write bulk_email_jobs job_id (finished job result now)
    ]

  unfoldable pub run_job : ℕ → Exec World (Unit {0})
  run_job job_id = do marked ← mark_sending job_id; if marked then complete_job job_id else pure tt

  -- The runner's own session: an exception rolls back to the last commit, and is not passed on.
  unfoldable pub run_bulk_email_job : SessionFaults → ℕ → World → World
  run_bulk_email_job faults job_id w =
      let (marked, sent) = (mark_sending job_id >>= λ there. commit faults.marking there) w in
      elim marked [
        | err e ↦ w
        | ok there ↦
            if there
            then (let (done, after) =
                  (complete_job job_id >>= λ _. commit faults.completing true) sent in
                elim done [ ok _ ↦ after | err e ↦ sent ])
            else w
      ]

  -- Its session is rolled back in every case.
  pub run_bulk_email_inert : ℕ → ℕ → String → JournalFormat → Exec World (Unit {0})
  run_bulk_email_inert company_id day recipient fmt w =
      let (sent, after) = send company_id day recipient fmt w in
      (elim sent [ ok _ ↦ ok tt | err e ↦ err e ], w)
