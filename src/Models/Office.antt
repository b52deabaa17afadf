-- ===== src/Models/Office.antt =====
-- app/models/leave.py, kiosk.py, board.py and journal_schedule.py: leaves, kiosks, board posts and
-- the mail schedules. A date is a number of days.
use rooti_server.Base.{ℕ, Bool, Option, String}
use rooti_server.Models.Enums.{LeaveType, LeaveStatus, Frequency, Weekday, JournalFormat}

pub record Leave : Type 0 where
  pub worker_id : ℕ
  pub company_id : ℕ
  pub type : LeaveType
  pub start_date : ℕ
  pub end_date : ℕ
  pub days : ℕ
  pub status : LeaveStatus
  pub reason : Option String
  pub created_by : Option ℕ

pub record CompanyKiosk : Type 0 where
  pub company_id : ℕ
  pub kiosk_id : String
  pub name : Option String
  pub location : Option String
  pub capacity : ℕ
  pub current_count : ℕ
  pub status : String
  pub assignee : Option String
  pub last_reported_at : Option ℕ

pub record CaregiverBoard : Type 0 where
  pub author_id : ℕ
  pub title : String
  pub body : String
  pub is_published : Bool
  pub created_at : ℕ
  pub created_by : Option ℕ
  pub updated_by : Option ℕ

pub record JournalEmailSchedule : Type 0 where
  pub company_id : ℕ
  pub recipient_email : String
  pub frequency : Frequency
  pub weekday : Option Weekday
  pub day_of_month : Option ℕ
  pub send_time : String
  pub format : JournalFormat
  pub enabled : Bool
  pub next_run_at : Option ℕ
  pub last_run_at : Option ℕ
