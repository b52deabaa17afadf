-- ===== src/Models/Document.antt =====
-- app/models/document.py and bulk_email_job.py: caregiver documents with their access log, and the
-- jobs that mail work journals.
use rooti_server.Base.{ℕ, Bool, Option, String}
use rooti_server.Models.Enums.{CaregiverDocumentActionType, JournalFormat, JobStatus}

pub record CaregiverDocumentType : Type 0 where
  pub name : String
  pub description : Option String

pub record CaregiverDocument : Type 0 where
  pub relation_id : ℕ
  pub type_id : ℕ
  pub filename : String
  pub file_size : Option ℕ
  pub content_type : Option String
  pub created_by : Option ℕ
  pub updated_by : Option ℕ

pub record CaregiverDocumentLog : Type 0 where
  pub document_id : ℕ
  pub user_id : ℕ
  pub action_type : CaregiverDocumentActionType

pub record BulkEmailJob : Type 0 where
  pub company_id : ℕ
  pub recipient_email : String
  pub target_date : ℕ
  pub format : JournalFormat
  pub status : JobStatus
  pub schedule_count : ℕ
  pub truncated : Bool
  pub message_id : Option String
  pub error_message : Option String
  pub requested_by : Option ℕ
  pub started_at : Option ℕ
  pub finished_at : Option ℕ
