-- ===== src/Schedules.antt =====
-- app/services/schedule.py: work schedules. A date is a number of days. The times of a
-- schedule are numbers of microseconds, the resolution of `datetime` and of the column.
pub mod Batch
pub mod Window
pub mod Endpoints
mod Tests
use rooti_server.Base.{
  ℕ, ◌+◌, ◌-◌, ◌*◌, Bool, true, false, not, ◌&&◌, ◌||◌, Option, none, some, List, [], ◌∷◌, map,
  String, ltb, leb, ◌==◌, is_none, if◌then◌else◌,
}
use rooti_server.Errors.{
  business, invalid_input, work_schedule_not_found, job_worker_not_found, job_standard_not_found,
}
use rooti_server.Exec.{Exec, pure, raise, gets, raise_if, or_raise, ◌>>=◌, ◌>>◌}
use rooti_server.Sql.{Sql, asc, desc}
use rooti_server.Sql.Query.{inner_join}
use rooti_server.Redis.{Redis}
use rooti_server.Models.{JobStandard, JobWorker, WorkSchedule}
use rooti_server.World.{World, schedules, job_workers, job_standards}
use rooti_server.World.Session.{db_get, add, write}
use rooti_server.Pagination.{PageParams, Page, paged}
use rooti_server.WorkRecords.{given_or}

pub record CreateScheduleRequest : Type 0 where
  pub job_worker_id : ℕ
  pub company_charger_id : Option ℕ
  pub start_at : ℕ
  pub end_at : Option ℕ
  pub make_work_doc : Option Bool

pub record BatchMakeRequest : Type 0 where
  pub job_standard_id : ℕ
  pub date : ℕ
  pub company_charger_id : Option ℕ
  pub job_worker_ids : List ℕ

pub record ScheduleResponse : Type 0 where
  pub id : ℕ
  pub schedule : WorkSchedule
  pub job_standard_name : Option String

abbrev pub max_date_span_days : ℕ
max_date_span_days = 31

abbrev pub micros_per_day : ℕ
micros_per_day = 86400000000

-- `datetime.combine(date, time.min)`
abbrev pub midnight : ℕ → ℕ
midnight date = date * micros_per_day

-- `datetime.combine(date, time.max)`, which is 23:59:59.999999
abbrev pub last_moment : ℕ → ℕ
last_moment date = midnight (date + 1) - 1

-- `>= datetime.combine(since, time.min)` and `< datetime.combine(until, time.max)`
abbrev pub in_window : ℕ → ℕ → ℕ → Bool
in_window since until start_at = leb (midnight since) start_at && ltb start_at (last_moment until)

abbrev pub new_schedule : BatchMakeRequest → ℕ → WorkSchedule
new_schedule req job_worker_id = record {
  job_worker_id = job_worker_id;
  company_charger_id = req.company_charger_id;
  job_standard_id = req.job_standard_id;
  start_at = midnight req.date;
  end_at = none;
  work_doc_path = none;
  make_work_doc = false;
}

module _ ⦃sql : Sql⦄ ⦃redis : Redis⦄ where
  unfoldable pub get_or_throw : ℕ → Exec World WorkSchedule
  get_or_throw schedule_id = do
    found ← db_get schedules schedule_id
    or_raise found (business work_schedule_not_found)

  -- `_to_response`: the standard is looked up by its key.
  abbrev pub schedule_response : World → ℕ × WorkSchedule → ScheduleResponse
  schedule_response w (id, s) = record {
    id = id;
    schedule = s;
    job_standard_name = elim (sql.get s.job_standard_id w.job_standards) [
      | none ↦ none
      | some standard ↦ some standard.name
    ];
  }

  unfoldable pub to_response : ℕ × WorkSchedule → Exec World ScheduleResponse
  to_response row = gets (λ w. schedule_response w row)

  pub get : ℕ → Exec World ScheduleResponse
  unfolding get_or_throw to_response
  get schedule_id = do s ← get_or_throw schedule_id; to_response (schedule_id, s)

  -- `select(WorkSchedule, JobStandard).join(JobStandard, …)` for one schedule
  abbrev pub schedule_row : World → ℕ × WorkSchedule → Option ScheduleResponse
  schedule_row w (id, s) = elim (sql.get s.job_standard_id w.job_standards) [
    | none ↦ none
    | some standard ↦
        some (record { id = id; schedule = s; job_standard_name = some standard.name })
  ]

  abbrev pub by_start : ScheduleResponse → ℕ
  by_start r = r.schedule.start_at

  pub list_all : PageParams → Exec World (Page ScheduleResponse)
  list_all params = gets (λ w. paged params (
      sql.order_by desc by_start
        (inner_join (schedule_row w) (sql.select (λ _ _. true) w.schedules))))

  pub list_for_job_worker : ℕ → ℕ → ℕ → Exec World (List ScheduleResponse)
  list_for_job_worker job_worker_id since until = do
    raise_if (ltb max_date_span_days (until - since)) (business invalid_input)
    gets (λ w. sql.order_by asc by_start (
        inner_join (schedule_row w) (
          sql.select (λ _ s. s.job_worker_id == job_worker_id && in_window since until s.start_at)
            w.schedules)))

  pub list_for_standard : ℕ → ℕ → ℕ → PageParams → Exec World (Page ScheduleResponse)
  list_for_standard job_standard_id since until params = do
    raise_if (ltb max_date_span_days (until - since)) (business invalid_input)
    gets (λ w. paged params (
        sql.order_by asc by_start (
          inner_join (schedule_row w) (
            sql.select
              (λ _ s. s.job_standard_id == job_standard_id && in_window since until s.start_at)
              w.schedules))))

  pub create : CreateScheduleRequest → Exec World ScheduleResponse
  unfolding to_response
  create req = do
    found ← db_get job_workers req.job_worker_id
    jw ← or_raise found (business job_worker_not_found)
    let s : WorkSchedule = record {
      job_worker_id = req.job_worker_id;
      company_charger_id = req.company_charger_id;
      job_standard_id = jw.job_standard_id;
      start_at = req.start_at;
      end_at = req.end_at;
      work_doc_path = none;
      make_work_doc = given_or req.make_work_doc false;
    }
    id ← add schedules s
    to_response (id, s)

  -- `jw is None or jw.job_standard_id != req.job_standard_id` skips the id.
  abbrev pub is_assigned : World → ℕ → ℕ → Bool
  is_assigned w job_standard_id job_worker_id = elim (sql.get job_worker_id w.job_workers) [
    | none ↦ false
    | some jw ↦ jw.job_standard_id == job_standard_id
  ]

  -- The loop of `batch_make`: the rows that are added to the session.
  abbrev pub batch_rows : World → BatchMakeRequest → List ℕ → List WorkSchedule
  batch_rows w req [] = []
  batch_rows w req (id ∷ ids) =
      let rest = batch_rows w req ids in
      if is_assigned w req.job_standard_id id then new_schedule req id ∷ rest else rest

  -- The flush inserts the added rows in order.
  unfoldable pub add_all : List WorkSchedule → Exec World (List (ℕ × WorkSchedule))
  add_all [] = pure []
  add_all (s ∷ rest) = do id ← add schedules s; rows ← add_all rest; pure ((id, s) ∷ rows)

  pub batch_make : BatchMakeRequest → Exec World (List ScheduleResponse)
  batch_make req = do
    standard ← db_get job_standards req.job_standard_id
    raise_if (is_none standard) (business job_standard_not_found)
    new_rows ← gets (λ w. batch_rows w req req.job_worker_ids)
    rows ← add_all new_rows
    gets (λ w. map (schedule_response w) rows)

  pub close : ℕ → Option ℕ → Exec World ScheduleResponse
  unfolding get_or_throw to_response
  close schedule_id end_at = do
    s ← get_or_throw schedule_id
    now ← gets (λ w. w.now * 1000000)
    let closed : WorkSchedule = record s { end_at = some (given_or end_at now) }
    write schedules schedule_id closed
    to_response (schedule_id, closed)
