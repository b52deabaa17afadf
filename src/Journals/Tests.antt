-- ===== src/Journals/Tests.antt =====
-- The theorems on journals for one schedule of each of two companies.
use Prim.Native.Nat.{min}
use rooti_server.Base.{ℕ, ◌≡◌, ◌↔◌, refl, true, false, none, some, [], ◌∷◌, arith, In, ltb, is_none}
use rooti_server.Errors.{integrity_error}
use rooti_server.Exec.{ok}
use rooti_server.Models.{CompanyWorker, ChallengedWorker, JobWorker, WorkSchedule, BulkEmailJob}
use rooti_server.Models.Enums.{pdf, xlsx, JobStatus}
use rooti_server.World.{World}
use rooti_server.Journals.{
  Mailing, bytes, raised, answered, render, owner_company, check_owner, render_as,
}
use rooti_server.Journals.Bulk.{
  BulkResult, BulkPreviewItem, BulkPreviewResponse, max_bulk_schedules, selected, send,
  send_selected, mail_archive, send_email, render_all, preview, preview_items,
}
use rooti_server.Journals.Jobs.{
  SessionFaults, new_job, create_job, mark_sending, run_bulk_email_job, started,
}
use rooti_server.Journals.Owner.{render_of_company}
use rooti_server.Journals.Preview.{HasReferences, preview-send}
use rooti_server.Journals.Machine.{
  Server, Step, Steps, idle, waiting, active, set_phase, InPhase, IsConsistent, jobs-IsConsistent,
  request, mark, done, then_step,
}
use rooti_server.Journals.Runner.{Leaves, run_bulk_email_job-ends}
use rooti_server.Samples.{sql, redis, office, standard, settings}

instance abbrev mailing : Mailing
mailing = record {
  write_pdf = λ html. bytes (37 ∷ []);
  write_xlsx = λ rows. raised "no sheet";
  resend_enabled = true;
  deliver = λ email. answered "m1";
  text_of = λ e. "failed";
  collation = λ name. 0;
  isoformat = λ day. "day";
  isoformat_time = λ time. "time";
}

abbrev job_worker : JobWorker
job_worker = record { company_worker_id = 0; job_standard_id = 0; use_flag = true; context = none }

abbrev schedule : WorkSchedule
schedule = record {
  job_worker_id = 0;
  company_charger_id = none;
  job_standard_id = 0;
  start_at = 86400000000;
  end_at = none;
  work_doc_path = none;
  make_work_doc = false;
}

abbrev worked : World
worked = record office {
  company_workers =
      some (record { company_id = 0; challenged_worker_id = 0; is_hired = true }) ∷ [];
  job_standards = some standard ∷ [];
  job_workers = some job_worker ∷ [];
  schedules = some schedule ∷ [];
}

rendered_pdf : render 0 pdf (some 0) worked ≡ (ok (37 ∷ []), worked)
unfolding render check_owner owner_company rooti_server.Tenant.assert_company render_as
rendered_pdf = refl

render_of_company_example :
    (s : WorkSchedule) × (sql.get 0 worked.schedules ≡ some s) × (owner_company worked s ≡ some 0)
render_of_company_example = render_of_company 0 pdf 0 worked worked (37 ∷ []) rendered_pdf

worker_of :
    (id : ℕ) (cw : CompanyWorker)
    → sql.get id worked.company_workers ≡ some cw
    → is_none (sql.get cw.challenged_worker_id worked.workers) ≡ false
worker_of ℕ.zero cw h = ground arith
worker_of (ℕ.suc id) cw h = cc

user_of :
    (id : ℕ) (c : ChallengedWorker)
    → sql.get id worked.workers ≡ some c
    → is_none (sql.get c.user_id worked.users) ≡ false
user_of ℕ.zero c h = ground arith
user_of (ℕ.suc id) c h = cc

standard_of :
    (id : ℕ) (s : WorkSchedule)
    → sql.get id worked.schedules ≡ some s
    → is_none (sql.get s.job_standard_id worked.job_standards) ≡ false
standard_of ℕ.zero s h = ground arith
standard_of (ℕ.suc id) s h = cc

worked-HasReferences : HasReferences worked
worked-HasReferences = record {
  worker_of = worker_of;
  user_of = user_of;
  standard_of = standard_of;
}

abbrev shown : BulkPreviewItem
shown = record {
  schedule_id = 0;
  worker_id = 0;
  worker_name = "jin";
  job_standard_id = 0;
  job_standard_name = "baking";
  start_at = 86400000000;
  end_at = none;
  record_count = 0;
}

abbrev previewed : BulkPreviewResponse
previewed = record {
  company_id = 0;
  company_name = "acme";
  date = 1;
  journal_count = 1;
  items = shown ∷ [];
}

preview_run : preview 0 1 worked ≡ (ok previewed, worked)
unfolding preview preview_items
preview_run = refl

abbrev result : BulkResult
result = record { count = 1; message_id = some "m1"; truncated = false }

send_run : send 0 1 "a@acme.kr" pdf worked ≡ (ok result, worked)
unfolding send selected send_selected mail_archive send_email render_all render render_as
    check_owner
send_run = refl

preview-send_example :
    (((item : BulkPreviewItem) × In item (shown ∷ []) × (item.schedule_id ≡ 0))
      ↔ ((s : WorkSchedule) × In (0, s) (selected worked 0 1)))
    × (1 ≡ min max_bulk_schedules 1)
    × (false ≡ ltb max_bulk_schedules 1)
preview-send_example =
    preview-send 0 1 "a@acme.kr" pdf worked worked worked previewed result 0 worked-HasReferences
      preview_run send_run

abbrev job : BulkEmailJob
job = record {
  company_id = 0;
  recipient_email = "a@acme.kr";
  target_date = 1;
  format = xlsx;
  status = JobStatus.queued;
  schedule_count = 0;
  truncated = false;
  message_id = none;
  error_message = none;
  requested_by = some 1;
  started_at = none;
  finished_at = none;
}

abbrev asked : World
asked = record worked { bulk_email_jobs = some job ∷ some job ∷ [] }

-- The second write is refused.
abbrev faults : SessionFaults
faults = record { marking = none; completing = some integrity_error }

run_bulk_email_job-ends_example :
    Leaves faults job (sql.get 0 (run_bulk_email_job faults 0 asked).bulk_email_jobs) 1000
    × (sql.get 1 (run_bulk_email_job faults 0 asked).bulk_email_jobs ≡ some job)
run_bulk_email_job-ends_example = run_bulk_email_job-ends faults 0 job asked 1 refl (omega arith)

abbrev fresh : Server
fresh = record { world = worked; phase = λ id. idle }

abbrev committed : World
committed = record worked { bulk_email_jobs = some job ∷ [] }

abbrev accepted : Server
accepted = record { world = committed; phase = set_phase (λ id. idle) 0 waiting }

abbrev marked : Server
marked = record {
  world = (mark_sending 0 committed).1;
  phase = set_phase (set_phase (λ id. idle) 0 waiting) 0 active;
}

requested : Step fresh accepted
unfolding create_job new_job
requested =
    request 0 1 "a@acme.kr" xlsx (some 1) fresh
      (record { id = 0; job = job; company_name = some "acme"; requested_by_name = none }) committed
      refl

life : Steps fresh marked
life =
    then_step fresh accepted marked (then_step fresh fresh accepted (done fresh) requested)
      (mark 0 accepted refl)

no_jobs : (id : ℕ) → sql.get id worked.bulk_email_jobs ≡ none
no_jobs id = refl

marked_row : sql.get 0 marked.world.bulk_email_jobs ≡ some (started job 1000)
unfolding mark_sending
marked_row = refl

jobs-IsConsistent_example :
    IsConsistent (started job 1000) × InPhase active (started job 1000).status
jobs-IsConsistent_example =
    jobs-IsConsistent fresh marked no_jobs life 0 (started job 1000) marked_row
