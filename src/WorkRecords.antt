-- ===== src/WorkRecords.antt =====
-- app/services/workrecord.py: the ON, WORK, REST and OFF records of a work schedule, and its process
-- records. A record is open until its `end_at` is set.
pub mod Open
pub mod Requests
pub mod Endpoints
mod Tests
use rooti_server.Base.{
  ℕ, Bool, true, false, not, ◌&&◌, Option, none, some, List, [], ◌∷◌, map, String, ◌==◌, is_none,
  same, if◌then◌else◌,
}
use rooti_server.Errors.{
  business, work_schedule_not_found, work_record_out_of_range, work_record_not_found,
  job_process_not_found,
}
use rooti_server.Exec.{Exec, pure, raise, gets, raise_if, or_raise, ◌>>=◌, ◌>>◌}
use rooti_server.Sql.{Sql, asc}
use rooti_server.Sql.Query.{inner_join}
use rooti_server.Redis.{Redis}
use rooti_server.Models.{ℤ, WorkRecord, WorkProcessRecord, WorkSchedule, JobProcess}
use rooti_server.Models.Enums.{WorkRecordType, off, WorkRecordType-discrete}
use rooti_server.Text.{opt_truthy}
use rooti_server.World.{World, schedules, records, process_records, job_processes}
use rooti_server.World.Session.{db_get, add, write, query_one}

pub record RecordRequest : Type 0 where
  pub work_schedule_id : ℕ
  pub type : WorkRecordType
  pub at_time : Option ℕ

pub record ProcessRequest : Type 0 where
  pub work_schedule_id : ℕ
  pub job_process_id : ℕ
  pub type : Option String
  pub at_time : Option ℕ
  pub condition : Option ℤ
  pub answer : Option String
  pub voice_path : Option String
  pub process : Option String

-- `a or b` where `a` is `None` or true
abbrev pub given_or : {A : Type 0} → Option A → A → A
given_or none b = b
given_or (some a) b = a

-- `a if a is not None else b`
abbrev pub or_else : {A : Type 0} → Option A → Option A → Option A
or_else none b = b
or_else (some a) b = some a

-- The condition of `_find_open_record`.
abbrev pub is_open : ℕ → WorkRecordType → ℕ → WorkRecord → Bool
is_open schedule_id type id r =
    r.work_schedule_id == schedule_id
    && same WorkRecordType-discrete r.type type
    && is_none r.end_at

abbrev open_process : ℕ → ℕ → ℕ → WorkProcessRecord → Bool
open_process schedule_id job_process_id id r =
    r.work_schedule_id == schedule_id && r.job_process_id == job_process_id && is_none r.end_at

-- `req.type or "PROCESS"`
abbrev or_process : Option String → String
or_process none = "PROCESS"
or_process (some type) = if opt_truthy (some type) then type else "PROCESS"

module _ ⦃sql : Sql⦄ ⦃redis : Redis⦄ where
  -- `req.at or datetime.now()`
  at_or_now : Option ℕ → Exec World ℕ
  at_or_now at_time = gets (λ w. given_or at_time w.now)

  unfoldable pub find_open_record : ℕ → WorkRecordType → Exec World (Option (ℕ × WorkRecord))
  find_open_record schedule_id type = query_one records (is_open schedule_id type)

  -- The reads of `begin`, which come before its write.
  unfoldable pub begin_check : RecordRequest → Exec World (Unit {0})
  unfolding find_open_record
  begin_check req = do
    schedule ← db_get schedules req.work_schedule_id
    raise_if (is_none schedule) (business work_schedule_not_found)
    open_existing ← find_open_record req.work_schedule_id req.type
    raise_if (not (is_none open_existing)) (business work_record_out_of_range)

  unfoldable pub begin_write : RecordRequest → Exec World (ℕ × WorkRecord)
  unfolding at_or_now
  begin_write req = do
    start_at ← at_or_now req.at_time
    let r : WorkRecord = record {
      work_schedule_id = req.work_schedule_id;
      type = req.type;
      start_at = start_at;
      end_at = none;
    }
    id ← add records r
    pure (id, r)

  unfoldable pub begin : RecordRequest → Exec World (ℕ × WorkRecord)
  unfolding begin_check begin_write
  begin req = do begin_check req; begin_write req

  set_end : ℕ → ℕ → Option WorkSchedule → Exec World (Unit {0})
  set_end schedule_id end_at none = pure tt
  set_end schedule_id end_at (some s) =
      write schedules schedule_id (record s { end_at = some end_at })

  -- OFF closes the schedule too.
  close_schedule : WorkRecordType → ℕ → ℕ → Exec World (Unit {0})
  unfolding set_end
  close_schedule type schedule_id end_at =
      if same WorkRecordType-discrete type off
      then (do schedule ← db_get schedules schedule_id; set_end schedule_id end_at schedule)
      else pure tt

  unfoldable pub end_record : RecordRequest → Exec World (ℕ × WorkRecord)
  unfolding find_open_record at_or_now close_schedule
  end_record req = do
    found ← find_open_record req.work_schedule_id req.type
    (id, r) ← or_raise found (business work_record_not_found)
    end_at ← at_or_now req.at_time
    let closed : WorkRecord = record r { end_at = some end_at }
    write records id closed
    close_schedule req.type r.work_schedule_id end_at
    pure (id, closed)

  by_start : ℕ × WorkRecord → ℕ
  by_start (id, r) = r.start_at

  pub list_records : ℕ → Exec World (List (ℕ × WorkRecord))
  unfolding by_start
  list_records schedule_id = gets (λ w.
      sql.order_by asc by_start (sql.select (λ _ r. r.work_schedule_id == schedule_id) w.records))

  pub begin_process : ProcessRequest → Exec World (ℕ × WorkProcessRecord × String)
  unfolding at_or_now
  begin_process req = do
    schedule ← db_get schedules req.work_schedule_id
    raise_if (is_none schedule) (business work_schedule_not_found)
    process ← db_get job_processes req.job_process_id
    job_process ← or_raise process (business job_process_not_found)
    start_at ← at_or_now req.at_time
    let r : WorkProcessRecord = record {
      work_schedule_id = req.work_schedule_id;
      job_process_id = req.job_process_id;
      type = or_process req.type;
      start_at = some start_at;
      end_at = none;
      start_condition = req.condition;
      end_condition = none;
      start_answer = req.answer;
      end_answer = none;
      start_voice_path = req.voice_path;
      end_voice_path = none;
      process = req.process;
    }
    id ← add process_records r
    pure (id, r, job_process.name)

  pub end_process : ProcessRequest → Exec World (ℕ × WorkProcessRecord × String)
  unfolding at_or_now
  end_process req = do
    found ← query_one process_records (open_process req.work_schedule_id req.job_process_id)
    (id, r) ← or_raise found (business work_record_not_found)
    end_at ← at_or_now req.at_time
    let ended : WorkProcessRecord = record r {
      end_at = some end_at;
      end_condition = req.condition;
      end_answer = req.answer;
      end_voice_path = req.voice_path;
      process = or_else req.process r.process;
    }
    write process_records id ended
    process ← db_get job_processes r.job_process_id
    pure (id, ended, elim process [ none ↦ "" | some job_process ↦ job_process.name ])

  abbrev process_row : World → ℕ × WorkProcessRecord → Option (ℕ × WorkProcessRecord × String)
  process_row w (id, r) = elim (sql.get r.job_process_id w.job_processes) [
    | none ↦ none
    | some p ↦ some (id, r, p.name)
  ]

  abbrev process_start : ℕ × WorkProcessRecord × String → ℕ
  process_start (id, r, name) = elim r.start_at [ none ↦ 0 | some t ↦ t ]

  -- PostgreSQL puts rows without a start last.
  abbrev starts_unknown : ℕ × WorkProcessRecord × String → ℕ
  starts_unknown (id, r, name) = elim r.start_at [ none ↦ 1 | some t ↦ 0 ]

  pub list_process : ℕ → Exec World (List (ℕ × WorkProcessRecord × String))
  list_process schedule_id = gets (λ w. sql.order_by asc starts_unknown (
      sql.order_by asc process_start (
        inner_join (process_row w)
          (sql.select (λ _ r. r.work_schedule_id == schedule_id) w.process_records))))
