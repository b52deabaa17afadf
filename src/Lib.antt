-- ===== src/Lib.antt =====
-- Rooti-Server: a model of the services of the employment-support server, and what is proved of them.
--
-- The program is a FastAPI server over PostgreSQL and Redis. An endpoint (app/api/v1) resolves the
-- user from a token (app/core/security.py) and the user's company scope (app/api/deps.py,
-- app/core/tenant.py), and calls a service (app/services), all in one database transaction
-- (app/core/database.py).
--
-- A service method is a function `Exec World A`: it takes the world and gives a result or an
-- exception, and the world it leaves (Exec). The world (World) holds one table per model class, the
-- Redis store, the clock and the entropy of password hashing. What the repository only calls is an
-- interface with the behaviour that its documentation promises, taken as an instance argument:
--   Sql: SQLAlchemy over PostgreSQL, with tables of rows under a primary key. An insert may be
--     refused, which stands for every constraint. Sql.Memory is an instance.
--   Redis: the store of refresh tokens, whose keys expire. Redis.Memory is an instance.
--   Crypto: JWT and bcrypt. Crypto.Sample is an instance.
--   Json: Pydantic's JSON encoder and decoder. Cache.Sample is an instance.
--   Disk: the file system under the local storage, which may refuse a new file or a part of it.
--   Mailing: WeasyPrint, openpyxl and Resend, which may fail in any call.
-- A model class that is cached (Cache.Model) and the StorageService protocol (Documents.Storage)
-- are interfaces of the program itself: Companies.Wire and Storage fill them. The background
-- runner of a bulk mail is a sequence of two steps, each of whose writes the database may refuse,
-- and Journals.Machine has the step relation in which the steps of many runners, requests and
-- restarts interleave.
--
-- The files and the code:
--   Errors            app/core/exceptions.py: ErrorCode and the handlers
--   Models            app/models: one record per table, one data type per enumeration
--   Tenant, Deps      app/core/tenant.py, app/api/deps.py, and get_db_session of app/core/database.py
--   Text              Python's str.strip, bool(str), str(int) and int(str)
--   Pagination        app/core/pagination.py: PageParams, Page.build
--   Security          app/core/security.py: create_token, parse_token, verify_password, current_user
--   Auth              app/services/auth.py: RefreshTokenStore, AuthService
--   Leaves            app/services/leave.py and, in Leaves.Endpoints, app/api/v1/leaves.py
--   WorkRecords       app/services/workrecord.py: WorkRecordService
--   Kiosks            app/services/kiosk.py and app/api/v1/kiosks.py
--   Workers           app/services/worker.py: WorkerService
--   Boards            app/services/board.py: CaregiverBoardService, with html.escape
--   Schedules         app/services/schedule.py: WorkScheduleService
--   Caregivers        app/services/caregiver.py: CaregiverService
--   Assignments       app/services/job.py: JobWorkerService
--   JournalSchedules  app/services/journal_schedule.py: JournalScheduleService
--   Users             app/services/user.py: UserService
--   Chargers          app/services/charger.py: ChargerService
--   Journals          app/services/document.py: WorkJournalRenderService and
--                     WorkJournalBulkEmailService, send_email of app/integrations/email.py and, in
--                     Journals.Endpoints, app/api/v1/work_journals.py
--   Documents         app/services/document.py: CaregiverDocumentService, and app/api/v1/documents.py
--   Storage           app/integrations/storage.py: LocalDiskStorage
--   Uploads           app/core/upload_validation.py
--   Cache             app/core/cache.py
--   Companies         app/services/company.py and app/api/v1/companies.py
--   JobStandards      app/services/job.py: JobStandardService, and app/api/v1/job_standards.py
--   *.Endpoints        the endpoints of app/api/v1 with their role and company guards
--   Samples           a concrete instance of every interface and a small office
--
-- A time is a whole number of seconds and a date a number of days, so two events in one second
-- have one time; the times of a work schedule are microseconds, as its columns have them. Numbers
-- are unbounded: identifiers are BIGINT keys that only the database makes. A loop over a request's
-- list is structural recursion. `str` of a number is written on fuel, with one digit per step and
-- the number plus one as fuel, which is always enough; the loop that copies an upload in chunks
-- has the number of bytes plus one.
--
-- Not modelled: response envelopes, messages, metrics, logging, the framework's wiring and field
-- validation of requests; the style sheet of a journal and the texts of a mail; push messages, the S3
-- adapter and the rate limiter, which only configure or call a library; the seed script. Redis out of
-- reach is taken as a miss. Paths have no symbolic links.
mod Base
pub mod Errors
pub mod Exec
pub mod Sql
pub mod Redis
pub mod Crypto
pub mod Models
pub mod World
pub mod Tenant
pub mod Text
pub mod Pagination
pub mod Security
pub mod Auth
pub mod Deps
pub mod Leaves
pub mod WorkRecords
pub mod Kiosks
pub mod Workers
pub mod Boards
pub mod Schedules
pub mod Samples
pub mod Caregivers
pub mod Assignments
pub mod JournalSchedules
pub mod Users
pub mod Chargers
pub mod Journals
pub mod Cache
pub mod Companies
pub mod Documents
pub mod Uploads
pub mod Storage
pub mod JobStandards
