-- ===== src/Journals/Bulk.antt =====
-- `WorkJournalBulkEmailService` of app/services/document.py: the journals of a company and a day in
-- one mail, and their preview. The mail's subject and text are left to its numbers.
use Prim.Native.String.{◌++◌ as str_append}
use rooti_server.Base.{
  ℕ, Bool, false, Option, none, some, List, [], ◌∷◌, String, length, take, ltb, leb, ◌&&◌, ◌==◌,
  if◌then◌else◌,
}
use rooti_server.Errors.{external_error}
use rooti_server.Exec.{Exec, pure, raise, gets, ◌>>=◌}
use rooti_server.Sql.{Sql, asc}
use rooti_server.Sql.Query.{inner_join}
use rooti_server.Redis.{Redis}
use rooti_server.Models.{WorkSchedule}
use rooti_server.Models.Enums.{JournalFormat}
use rooti_server.World.{World, companies}
use rooti_server.World.Session.{db_get}
use rooti_server.Text.Decimal.{str_of}
use rooti_server.Schedules.{midnight, last_moment}
use rooti_server.Journals.{
  Bytes, Email, Mailing, refused, no_dictionary, answered, extension, render,
}

abbrev pub max_bulk_schedules : ℕ
max_bulk_schedules = 300

-- The dictionary that `send` returns.
pub record BulkResult : Type 0 where
  pub count : ℕ
  pub message_id : Option String
  pub truncated : Bool

pub record BulkPreviewItem : Type 0 where
  pub schedule_id : ℕ
  pub worker_id : ℕ
  pub worker_name : String
  pub job_standard_id : ℕ
  pub job_standard_name : String
  pub start_at : ℕ
  pub end_at : Option ℕ
  pub record_count : ℕ

pub record BulkPreviewResponse : Type 0 where
  pub company_id : ℕ
  pub company_name : String
  pub date : ℕ
  pub journal_count : ℕ
  pub items : List BulkPreviewItem

unfoldable pub entry_name : ℕ → JournalFormat → String
entry_name schedule_id fmt =
    str_append "work-journal-" (str_append (str_of schedule_id) (str_append "." (extension fmt)))

module _ ⦃sql : Sql⦄ ⦃redis : Redis⦄ where
  -- The joins of `send` for one schedule, with the condition on the company.
  abbrev pub company_row : World → ℕ → ℕ × WorkSchedule → Option (ℕ × WorkSchedule)
  company_row w company_id (id, s) = elim (sql.get s.job_worker_id w.job_workers) [
    | none ↦ none
    | some jw ↦ elim (sql.get jw.company_worker_id w.company_workers) [
      | none ↦ none
      | some cw ↦ if cw.company_id == company_id then some (id, s) else none
    ]
  ]

  abbrev pub on_day : ℕ → ℕ → WorkSchedule → Bool
  on_day day id s = leb (midnight day) s.start_at && leb s.start_at (last_moment day)

  abbrev pub schedule_start : ℕ × WorkSchedule → ℕ
  schedule_start (id, s) = s.start_at

  -- The schedules of a company on a day, the earliest first.
  unfoldable pub selected : World → ℕ → ℕ → List (ℕ × WorkSchedule)
  selected w company_id day =
      sql.order_by asc schedule_start
        (inner_join (company_row w company_id) (sql.select (on_day day) w.schedules))

module _ ⦃sql : Sql⦄ ⦃redis : Redis⦄ ⦃mailing : Mailing⦄ where
  -- The loop that renders each schedule into the archive.
  unfoldable pub render_all :
      JournalFormat → List (ℕ × WorkSchedule) → Exec World (List (String × Bytes))
  render_all fmt [] = pure []
  render_all fmt ((id, s) ∷ rest) = do
    body ← render id fmt none
    entries ← render_all fmt rest
    pure ((entry_name id fmt, body) ∷ entries)

  -- `send_email`
  unfoldable pub send_email : Email → Exec World (Option String)
  send_email email =
      if mailing.resend_enabled
      then elim (mailing.deliver email) [
        | refused text ↦ raise (external_error text)
        | no_dictionary ↦ pure none
        | answered id ↦ pure (some id)
      ]
      else pure none

  abbrev pub bulk_email : String → ℕ → ℕ → ℕ → List (String × Bytes) → Email
  bulk_email to day total count entries = record {
    to = to;
    count = count;
    warned = ltb max_bulk_schedules total;
    attachment = record {
      filename = str_append "work-journals-" (str_append (mailing.isoformat day) ".zip");
      content = entries;
    };
  }

  -- What follows the loop: the mail, and the dictionary.
  unfoldable pub mail_archive : ℕ → String → ℕ → ℕ → List (String × Bytes) → Exec World BulkResult
  mail_archive day recipient total count entries = do
    message_id ← send_email (bulk_email recipient day total count entries)
    pure (record {
      count = count;
      message_id = message_id;
      truncated = ltb max_bulk_schedules total;
    })

  unfoldable pub send_selected :
      ℕ → String → JournalFormat → List (ℕ × WorkSchedule) → Exec World BulkResult
  send_selected day recipient fmt [] =
      pure (record { count = 0; message_id = none; truncated = false })
  send_selected day recipient fmt (s ∷ rest) = do
    let total : ℕ = length (s ∷ rest)
    let filtered : List (ℕ × WorkSchedule) = take max_bulk_schedules (s ∷ rest)
    entries ← render_all fmt filtered
    mail_archive day recipient total (length filtered) entries

  unfoldable pub send : ℕ → ℕ → String → JournalFormat → Exec World BulkResult
  send company_id day recipient fmt = do
    schedules ← gets (λ w. selected w company_id day)
    send_selected day recipient fmt schedules

  -- The further joins of `preview` for one schedule.
  abbrev pub preview_row : World → ℕ → ℕ × WorkSchedule → Option BulkPreviewItem
  preview_row w company_id (id, s) = elim (sql.get s.job_worker_id w.job_workers) [
    | none ↦ none
    | some jw ↦ elim (sql.get jw.company_worker_id w.company_workers) [
      | none ↦ none
      | some cw ↦ elim (sql.get cw.challenged_worker_id w.workers) [
        | none ↦ none
        | some worker ↦ elim (sql.get worker.user_id w.users) [
          | none ↦ none
          | some user ↦ elim (sql.get s.job_standard_id w.job_standards) [
            | none ↦ none
            | some standard ↦
                if cw.company_id == company_id
                then some (record {
                  schedule_id = id;
                  worker_id = cw.challenged_worker_id;
                  worker_name = user.name;
                  job_standard_id = s.job_standard_id;
                  job_standard_name = standard.name;
                  start_at = s.start_at;
                  end_at = s.end_at;
                  record_count = length (sql.select (λ _ r. r.work_schedule_id == id) w.records);
                })
                else none
          ]
        ]
      ]
    ]
  ]

  abbrev pub item_start : BulkPreviewItem → ℕ
  item_start i = i.start_at

  abbrev pub item_name : BulkPreviewItem → ℕ
  item_name i = mailing.collation i.worker_name

  -- Ordered by the name, and by the start among equal names.
  unfoldable pub preview_items : World → ℕ → ℕ → List BulkPreviewItem
  preview_items w company_id day = sql.order_by asc item_name (
      sql.order_by asc item_start
        (inner_join (preview_row w company_id) (sql.select (on_day day) w.schedules)))

  unfoldable pub preview : ℕ → ℕ → Exec World BulkPreviewResponse
  preview company_id day = do
    company ← db_get companies company_id
    items ← gets (λ w. preview_items w company_id day)
    pure (record {
      company_id = company_id;
      company_name = elim company [ none ↦ "" | some c ↦ c.name ];
      date = day;
      journal_count = length items;
      items = items;
    })
