-- ===== src/World.antt =====
-- What a service call can change: the tables of the database, the Redis store, and the clock that
-- `datetime.now()` and `_now_epoch()` read.
pub mod Session
use rooti_server.Base.{ℕ}
use rooti_server.Sql.{Sql}
use rooti_server.Redis.{Redis}
use rooti_server.Models.{
  User, ChallengedWorker, Company, CompanyCharger, CompanyWorker, Caregiver,
  CaregiverWorkerRelation, JobStandard, JobProcess, JobWorker, WorkSchedule, WorkRecord,
  WorkProcessRecord, Leave, CompanyKiosk, CaregiverBoard, JournalEmailSchedule,
  CaregiverDocumentType, CaregiverDocument, CaregiverDocumentLog, BulkEmailJob,
}

-- A table as a part of the world.
pub record Lens (S T : Type 0) : Type 0 where
  pub view : S → T
  pub put : T → S → S

module _ ⦃sql : Sql⦄ ⦃redis : Redis⦄ where
  pub record World : Type 0 where
    pub users : sql.Table User
    pub workers : sql.Table ChallengedWorker
    pub companies : sql.Table Company
    pub chargers : sql.Table CompanyCharger
    pub company_workers : sql.Table CompanyWorker
    pub caregivers : sql.Table Caregiver
    pub relations : sql.Table CaregiverWorkerRelation
    pub job_standards : sql.Table JobStandard
    pub job_processes : sql.Table JobProcess
    pub job_workers : sql.Table JobWorker
    pub schedules : sql.Table WorkSchedule
    pub records : sql.Table WorkRecord
    pub process_records : sql.Table WorkProcessRecord
    pub leaves : sql.Table Leave
    pub kiosks : sql.Table CompanyKiosk
    pub boards : sql.Table CaregiverBoard
    pub journal_schedules : sql.Table JournalEmailSchedule
    pub document_types : sql.Table CaregiverDocumentType
    pub documents : sql.Table CaregiverDocument
    pub document_logs : sql.Table CaregiverDocumentLog
    pub bulk_email_jobs : sql.Table BulkEmailJob
    pub store : redis.Store
    pub now : ℕ
    -- what `bcrypt.gensalt` draws from
    pub entropy : ℕ

  -- The tables as parts of the world.
  abbrev pub users : Lens World (sql.Table User)
  users = record { view = λ w. w.users; put = λ t w. record w { users = t } }

  abbrev pub workers : Lens World (sql.Table ChallengedWorker)
  workers = record { view = λ w. w.workers; put = λ t w. record w { workers = t } }

  abbrev pub companies : Lens World (sql.Table Company)
  companies = record { view = λ w. w.companies; put = λ t w. record w { companies = t } }

  abbrev pub chargers : Lens World (sql.Table CompanyCharger)
  chargers = record { view = λ w. w.chargers; put = λ t w. record w { chargers = t } }

  abbrev pub company_workers : Lens World (sql.Table CompanyWorker)
  company_workers = record {
    view = λ w. w.company_workers;
    put = λ t w. record w { company_workers = t };
  }

  abbrev pub caregivers : Lens World (sql.Table Caregiver)
  caregivers = record { view = λ w. w.caregivers; put = λ t w. record w { caregivers = t } }

  abbrev pub relations : Lens World (sql.Table CaregiverWorkerRelation)
  relations = record { view = λ w. w.relations; put = λ t w. record w { relations = t } }

  abbrev pub job_standards : Lens World (sql.Table JobStandard)
  job_standards = record {
    view = λ w. w.job_standards;
    put = λ t w. record w { job_standards = t };
  }

  abbrev pub job_processes : Lens World (sql.Table JobProcess)
  job_processes = record {
    view = λ w. w.job_processes;
    put = λ t w. record w { job_processes = t };
  }

  abbrev pub job_workers : Lens World (sql.Table JobWorker)
  job_workers = record { view = λ w. w.job_workers; put = λ t w. record w { job_workers = t } }

  abbrev pub schedules : Lens World (sql.Table WorkSchedule)
  schedules = record { view = λ w. w.schedules; put = λ t w. record w { schedules = t } }

  abbrev pub records : Lens World (sql.Table WorkRecord)
  records = record { view = λ w. w.records; put = λ t w. record w { records = t } }

  abbrev pub process_records : Lens World (sql.Table WorkProcessRecord)
  process_records = record {
    view = λ w. w.process_records;
    put = λ t w. record w { process_records = t };
  }

  abbrev pub leaves : Lens World (sql.Table Leave)
  leaves = record { view = λ w. w.leaves; put = λ t w. record w { leaves = t } }

  abbrev pub kiosks : Lens World (sql.Table CompanyKiosk)
  kiosks = record { view = λ w. w.kiosks; put = λ t w. record w { kiosks = t } }

  abbrev pub boards : Lens World (sql.Table CaregiverBoard)
  boards = record { view = λ w. w.boards; put = λ t w. record w { boards = t } }

  abbrev pub journal_schedules : Lens World (sql.Table JournalEmailSchedule)
  journal_schedules = record {
    view = λ w. w.journal_schedules;
    put = λ t w. record w { journal_schedules = t };
  }

  abbrev pub document_types : Lens World (sql.Table CaregiverDocumentType)
  document_types = record {
    view = λ w. w.document_types;
    put = λ t w. record w { document_types = t };
  }

  abbrev pub documents : Lens World (sql.Table CaregiverDocument)
  documents = record { view = λ w. w.documents; put = λ t w. record w { documents = t } }

  abbrev pub document_logs : Lens World (sql.Table CaregiverDocumentLog)
  document_logs = record {
    view = λ w. w.document_logs;
    put = λ t w. record w { document_logs = t };
  }

  abbrev pub bulk_email_jobs : Lens World (sql.Table BulkEmailJob)
  bulk_email_jobs = record {
    view = λ w. w.bulk_email_jobs;
    put = λ t w. record w { bulk_email_jobs = t };
  }
