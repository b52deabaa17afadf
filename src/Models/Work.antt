-- ===== src/Models/Work.antt =====
-- app/models/job.py and work.py: job standards with their processes and assignments, work schedules
-- and the records of a schedule. A time is a number of seconds.
use rooti_server.Base.{ℕ, Bool, Option, String}
use rooti_server.Models.Enums.{WorkRecordType}

pub record JobStandard : Type 0 where
  pub company_id : ℕ
  pub name : String
  pub use_flag : Bool
  pub routine_start_time : Option ℕ
  pub standard_work_time : ℕ
  pub standard_rest_time : ℕ
  pub start_message : Option String
  pub end_message : Option String
  pub context : Option String
  pub for_journal : Bool

pub record JobProcess : Type 0 where
  pub job_standard_id : ℕ
  pub name : String
  pub sequence : ℕ
  pub video_path : Option String
  pub start_message : Option String
  pub end_message : Option String
  pub context : Option String
  pub process_time : ℕ

pub record JobWorker : Type 0 where
  pub company_worker_id : ℕ
  pub job_standard_id : ℕ
  pub use_flag : Bool
  pub context : Option String

-- The times of a schedule are microseconds; those of the records are seconds.
pub record WorkSchedule : Type 0 where
  pub job_worker_id : ℕ
  pub company_charger_id : Option ℕ
  pub job_standard_id : ℕ
  pub start_at : ℕ
  pub end_at : Option ℕ
  pub work_doc_path : Option String
  pub make_work_doc : Bool

pub record WorkRecord : Type 0 where
  pub work_schedule_id : ℕ
  pub type : WorkRecordType
  pub start_at : ℕ
  pub end_at : Option ℕ

-- A SMALLINT with a sign: a condition of -1 is OTHER.
pub data ℤ : Type 0 where
  pos negsuc : ℕ → ℤ

pub record WorkProcessRecord : Type 0 where
  pub work_schedule_id : ℕ
  pub job_process_id : ℕ
  pub type : String
  pub start_at : Option ℕ
  pub end_at : Option ℕ
  pub start_condition : Option ℤ
  pub end_condition : Option ℤ
  pub start_answer : Option String
  pub end_answer : Option String
  pub start_voice_path : Option String
  pub end_voice_path : Option String
  pub process : Option String
