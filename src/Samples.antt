-- ===== src/Samples.antt =====
-- A concrete database, Redis store, token format and settings, on which the theorems are tried.
use rooti_server.Base.{ℕ, true, false, none, some, [], ◌∷◌, String}
use rooti_server.Sql.{Sql}
use rooti_server.Sql.Memory.{memory as tables}
use rooti_server.Redis.{Redis}
use rooti_server.Redis.Memory.{memory as keys}
use rooti_server.Models.{User, Company, CompanyCharger, ChallengedWorker, Leave, JobStandard}
use rooti_server.Models.Enums.{UserRole, admin, charger, worker, annual, pending}
use rooti_server.World.{World}
use rooti_server.Security.{Settings, PrincipalDetails}

instance abbrev pub sql : Sql
sql = tables

instance abbrev pub redis : Redis
redis = keys

instance abbrev pub settings : Settings
settings = record {
  jwt_issuer = "rooti";
  jwt_secret = "0123456789abcdef0123456789abcdef";
  jwt_access_ttl_minutes = 15;
  jwt_refresh_ttl_days = 14;
  app_read_only = false;
  multipart_max_file_bytes = 52428800;
}

abbrev pub blank : World ⦃sql = tables⦄ ⦃redis = keys⦄
blank = record {
  users = [];
  workers = [];
  companies = [];
  chargers = [];
  company_workers = [];
  caregivers = [];
  relations = [];
  job_standards = [];
  job_processes = [];
  job_workers = [];
  schedules = [];
  records = [];
  process_records = [];
  leaves = [];
  kiosks = [];
  boards = [];
  journal_schedules = [];
  document_types = [];
  documents = [];
  document_logs = [];
  bulk_email_jobs = [];
  store = [];
  now = 1000;
  entropy = 7;
}

abbrev pub user : String → UserRole → User
user name role = record {
  username = name;
  email = none;
  password_hash = "";
  name = name;
  phone_number = none;
  role = role;
  enabled = true;
  last_login_at = none;
}

abbrev pub company : String → Company
company name = record {
  name = name;
  location = none;
  use_flag = true;
  image_path = none;
  template_id = none;
  template_data = none;
  created_by = none;
  updated_by = none;
}

abbrev pub acme_charger : CompanyCharger
acme_charger = record { user_id = 1; company_id = 0; is_hired = true; fcm_token = none }

abbrev pub jin : ChallengedWorker
jin = record { user_id = 2; fcm_token = none; retired_at = none }

-- A leave of jin at a company from the 10th to the 12th day.
abbrev pub leave_at : ℕ → Leave
leave_at company_id = record {
  worker_id = 0;
  company_id = company_id;
  type = annual;
  start_date = 10;
  end_date = 12;
  days = 3;
  status = pending;
  reason = none;
  created_by = some 1;
}

-- Two companies, the administrator kim, park who is in charge of the first company, and the worker
-- jin, with a leave at each company.
abbrev pub office : World ⦃sql = tables⦄ ⦃redis = keys⦄
office = record blank {
  users = some (user "kim" admin) ∷ some (user "park" charger) ∷ some (user "jin" worker) ∷ [];
  companies = some (company "acme") ∷ some (company "beta") ∷ [];
  chargers = some acme_charger ∷ [];
  workers = some jin ∷ [];
  leaves = some (leave_at 0) ∷ some (leave_at 1) ∷ [];
}

abbrev pub park : PrincipalDetails
park = record { user_id = 1; username = "park"; roles = "CHARGER" ∷ [] }

abbrev pub standard : JobStandard
standard = record {
  company_id = 0;
  name = "baking";
  use_flag = true;
  routine_start_time = none;
  standard_work_time = 240;
  standard_rest_time = 30;
  start_message = none;
  end_message = none;
  context = none;
  for_journal = false;
}
