-- ===== src/Models/People.antt =====
-- app/models/user.py, worker.py, caregiver.py and company.py: the people, the companies and who
-- works where. The primary key stands beside a row, and the time stamps of the mixin are left out.
use rooti_server.Base.{ℕ, Bool, Option, String}
use rooti_server.Models.Enums.{UserRole}

pub record User : Type 0 where
  pub username : String
  pub email : Option String
  pub password_hash : String
  pub name : String
  pub phone_number : Option String
  pub role : UserRole
  pub enabled : Bool
  pub last_login_at : Option ℕ

pub record ChallengedWorker : Type 0 where
  pub user_id : ℕ
  pub fcm_token : Option String
  pub retired_at : Option ℕ

pub record Company : Type 0 where
  pub name : String
  pub location : Option String
  pub use_flag : Bool
  pub image_path : Option String
  pub template_id : Option String
  pub template_data : Option String
  pub created_by : Option ℕ
  pub updated_by : Option ℕ

pub record CompanyCharger : Type 0 where
  pub user_id : ℕ
  pub company_id : ℕ
  pub is_hired : Bool
  pub fcm_token : Option String

pub record CompanyWorker : Type 0 where
  pub company_id : ℕ
  pub challenged_worker_id : ℕ
  pub is_hired : Bool

pub record Caregiver : Type 0 where
  pub user_id : ℕ

pub record CaregiverWorkerRelation : Type 0 where
  pub caregiver_id : ℕ
  pub challenged_worker_id : ℕ
