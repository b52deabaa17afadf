-- ===== src/Journals.antt =====
-- `WorkJournalRenderService` of app/services/document.py with app/integrations/email.py, and the
-- libraries behind app/integrations/pdf.py, xlsx.py and email.py as an interface.
pub mod Bulk
pub mod Jobs
pub mod Endpoints
pub mod Selection
pub mod Preview
pub mod Rows
pub mod Machine
pub mod Runner
pub mod Owner
mod Tests
use Prim.Native.String.{◌++◌ as str_append}
use rooti_server.Base.{
  ℕ, Bool, true, false, not, ◌||◌, Option, none, some, List, [], ◌∷◌, map, String, ◌==◌, is_none,
  if◌then◌else◌,
}
use rooti_server.Errors.{Exn, business, external_error, work_schedule_not_found}
use rooti_server.Exec.{Exec, pure, raise, gets, raise_if, or_raise, ◌>>=◌, ◌>>◌}
use rooti_server.Sql.{Sql, asc}
use rooti_server.Redis.{Redis}
use rooti_server.Models.{WorkSchedule, WorkRecord, JobStandard}
use rooti_server.Models.Enums.{WorkRecordType, on, work, rest, off, JournalFormat, pdf, hwp, xlsx}
use rooti_server.World.{World, schedules, job_standards}
use rooti_server.World.Session.{db_get}
use rooti_server.Tenant.{CompanyScope, assert_company}
use rooti_server.Text.Decimal.{str_of}
use rooti_server.Security.{encode_utf8}

abbrev pub Bytes : Type 0
Bytes = List ℕ

-- One row of a journal: the type, the start and the end of a record.
pub record JournalRow : Type 0 where
  pub type : String
  pub start_at : String
  pub end_at : String

pub record Attachment : Type 0 where
  pub filename : String
  -- the entries of the archive
  pub content : List (String × Bytes)

pub record Email : Type 0 where
  pub to : String
  pub count : ℕ
  -- whether the text warns that journals were left out
  pub warned : Bool
  pub attachment : Attachment

-- What a library call gives: bytes or an exception with its text.
pub data Rendered : Type 0 where
  bytes : Bytes → Rendered
  raised : String → Rendered

-- What `resend.Emails.send` gives: an exception, a value that is no dictionary, or a dictionary with
-- the text of its "id".
pub data Delivery : Type 0 where
  refused : String → Delivery
  no_dictionary : Delivery
  answered : String → Delivery

-- WeasyPrint on a page, openpyxl on the rows, Resend, `str` of an exception, the order of names in
-- the database, `isoformat` of a day and of a time, and whether `resend_enabled` and the key are set.
pub record Mailing : Type 0 where
  pub write_pdf : String → Rendered
  pub write_xlsx : List JournalRow → Rendered
  pub resend_enabled : Bool
  pub deliver : Email → Delivery
  pub text_of : Exn → String
  pub collation : String → ℕ
  pub isoformat : ℕ → String
  pub isoformat_time : ℕ → String

abbrev pub type_value : WorkRecordType → String
type_value on = "ON"
type_value work = "WORK"
type_value rest = "REST"
type_value off = "OFF"

-- `JournalFormat.extension`
abbrev pub extension : JournalFormat → String
extension pdf = "pdf"
extension hwp = "hwp"
extension xlsx = "xlsx"

unfoldable pub title_of : ℕ → Option JobStandard → String
title_of schedule_id standard = str_append "근무일지 - schedule=" (
    str_append (str_of schedule_id)
      (str_append " - " (elim standard [ none ↦ "" | some s ↦ s.name ])))

unfoldable pub placeholder : String → Bytes
placeholder title = encode_utf8 (str_append "[HWP placeholder] " (str_append title "\n(렌더러 미구현)\n"))

module _ {W : Type 0} where
  abbrev pub rendered : Rendered → Exec W Bytes
  rendered (bytes b) = pure b
  rendered (raised text) = raise (external_error text)

module _ ⦃sql : Sql⦄ ⦃redis : Redis⦄ where
  -- `select(CompanyWorker.company_id).join(JobWorker, …).where(JobWorker.id == …)`
  unfoldable pub owner_company : World → WorkSchedule → Option ℕ
  owner_company w schedule = elim (sql.get schedule.job_worker_id w.job_workers) [
    | none ↦ none
    | some job_worker ↦ elim (sql.get job_worker.company_worker_id w.company_workers) [
      | none ↦ none
      | some company_worker ↦ some company_worker.company_id
    ]
  ]

  -- `if company_scope is not None`: the schedule's company is checked.
  unfoldable pub check_owner : CompanyScope → WorkSchedule → Exec World (Unit {0})
  check_owner none schedule = pure tt
  check_owner (some company) schedule = do
    owner ← gets (λ w. owner_company w schedule)
    assert_company (some company) owner

module _ ⦃mailing : Mailing⦄ where
  abbrev pub journal_row : ℕ × WorkRecord → JournalRow
  journal_row (id, r) = record {
    type = type_value r.type;
    start_at = mailing.isoformat_time r.start_at;
    end_at = elim r.end_at [ none ↦ "" | some t ↦ mailing.isoformat_time t ];
  }

-- The cells of `_render_pdf`.
abbrev pub cell : String → String
cell text = str_append "<td>" (str_append text "</td>")

pub rows_html : List JournalRow → String
rows_html [] = ""
rows_html (r ∷ others) = str_append "<tr>" (
    str_append (cell r.type) (
      str_append (cell r.start_at)
        (str_append (cell r.end_at) (str_append "</tr>" (rows_html others)))))

-- The page of `_render_pdf`; its style sheet is left out.
pub page : String → List JournalRow → String
page title rows =
    str_append "<!doctype html><html lang=\"ko\"><head><meta charset=\"utf-8\"><title>" (
      str_append title (
        str_append "</title></head><body><h1>" (
          str_append title (
            str_append
              "</h1><table><thead><tr><th>type</th><th>start</th><th>end</th></tr></thead><tbody>"
              (str_append (rows_html rows) "</tbody></table></body></html>")))))

module _ ⦃sql : Sql⦄ ⦃redis : Redis⦄ ⦃mailing : Mailing⦄ where
  abbrev pub by_record_start : ℕ × WorkRecord → ℕ
  by_record_start (id, r) = r.start_at

  unfoldable pub journal_rows : World → ℕ → List JournalRow
  journal_rows w schedule_id = map journal_row (
      sql.order_by asc by_record_start
        (sql.select (λ _ r. r.work_schedule_id == schedule_id) w.records))

  unfoldable pub render_as : JournalFormat → String → List JournalRow → Exec World Bytes
  render_as pdf title rows = rendered (mailing.write_pdf (page title rows))
  render_as xlsx title rows = rendered (mailing.write_xlsx rows)
  render_as hwp title rows = pure (placeholder title)

  unfoldable pub render : ℕ → JournalFormat → CompanyScope → Exec World Bytes
  render schedule_id fmt company_scope = do
    found ← db_get schedules schedule_id
    schedule ← or_raise found (business work_schedule_not_found)
    check_owner company_scope schedule
    standard ← db_get job_standards schedule.job_standard_id
    rows ← gets (λ w. journal_rows w schedule_id)
    render_as fmt (title_of schedule_id standard) rows
