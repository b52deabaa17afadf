-- ===== src/JournalSchedules.antt =====
-- app/services/journal_schedule.py: the schedules that mail work journals. A time of day is local, as
-- `datetime.now()` is, and the response carries the row and the name of the company.
pub mod NextRun
pub mod Updates
pub mod Endpoints
mod Tests
use Prim.Native.Char.{code}
use rooti_server.Base.{
  ℕ, ◌+◌, ◌-◌, ◌*◌, ◌%◌, Bool, true, false, not, ◌&&◌, ◌||◌, Option, none, some, List, map, String,
  ltb, ◌==◌, is_none, if◌then◌else◌,
}
use rooti_server.Errors.{business, value_error, company_not_found, resource_not_found}
use rooti_server.Exec.{Exec, pure, raise, gets, raise_if, or_raise, ◌>>=◌, ◌>>◌}
use rooti_server.Sql.{Sql, desc}
use rooti_server.Redis.{Redis}
use rooti_server.Models.{JournalEmailSchedule, Company}
use rooti_server.Models.Enums.{Frequency, Weekday, JournalFormat, daily, weekly, monthly, mon}
use rooti_server.World.{World, journal_schedules, companies}
use rooti_server.World.Session.{db_get, add, write, remove}
use rooti_server.Tenant.{CompanyScope, assert_company}
use rooti_server.Text.{opt_truthy}
use rooti_server.Text.Decimal.{int_of}
use rooti_server.WorkRecords.{given_or, or_else}
use rooti_server.Leaves.{set_and}

pub record JournalScheduleCreateRequest : Type 0 where
  pub company_id : ℕ
  pub recipient_email : String
  pub frequency : Frequency
  pub weekday : Option Weekday
  pub day_of_month : Option ℕ
  pub time : String
  pub format : JournalFormat
  pub enabled : Bool

pub record JournalScheduleUpdateRequest : Type 0 where
  pub company_id : Option ℕ
  pub recipient_email : Option String
  pub frequency : Option Frequency
  pub weekday : Option Weekday
  pub day_of_month : Option ℕ
  pub time : Option String
  pub format : Option JournalFormat
  pub enabled : Option Bool

pub record JournalScheduleResponse : Type 0 where
  pub id : ℕ
  pub schedule : JournalEmailSchedule
  pub company_name : Option String

abbrev prepend : String → Option (String × String) → Option (String × String)
prepend c none = none
prepend c (some (front, back)) = some (Prim.Native.String.◌++◌ c front, back)

-- `time_str.split(":", 1)`, `none` without a colon
split_time : String → Option (String × String)
split_time String.[] = none
split_time (String.◌∷◌ c s) =
    let rest = split_time s in
    if code c == 58 then some (String.[], s) else prepend (String.◌∷◌ c String.[]) rest

-- The hour and the minute; 9:00 for a text that does not parse.
unfoldable pub hour_minute : String → ℕ × ℕ
unfolding split_time
hour_minute time_str = elim (split_time time_str) [
  | none ↦ (9, 0)
  | some (front, back) ↦ elim (int_of front) [
    | none ↦ (9, 0)
    | some h ↦ elim (int_of back) [ none ↦ (9, 0) | some m ↦ (h, m) ]
  ]
]

-- `now.replace(hour=h, minute=m, …)`, a day later if that time has passed
abbrev pub next_at : ℕ → ℕ → ℕ → ℕ
next_at h m now =
    let nxt = now - now % 86400 + h * 3600 + m * 60 in if ltb nxt now then nxt + 86400 else nxt

-- `or` of two days of the month, where 0 counts as absent
abbrev or_day : Option ℕ → Option ℕ → Option ℕ
or_day none b = b
or_day (some d) b = if d == 0 then b else some d

unfoldable pub with_frequency :
    JournalScheduleUpdateRequest → JournalEmailSchedule → Option Frequency → JournalEmailSchedule
with_frequency req s none = s
with_frequency req s (some daily) = record s {
  frequency = daily;
  weekday = none;
  day_of_month = none;
}
with_frequency req s (some weekly) = record s {
  frequency = weekly;
  weekday = some (given_or (or_else req.weekday s.weekday) mon);
  day_of_month = none;
}
with_frequency req s (some monthly) = record s {
  frequency = monthly;
  weekday = none;
  day_of_month = or_day req.day_of_month (or_day s.day_of_month (some 1));
}

abbrev with_email : Option String → JournalEmailSchedule → JournalEmailSchedule
with_email none s = s
with_email (some email) s =
    if opt_truthy (some email) then record s { recipient_email = email } else s

abbrev with_format : Option JournalFormat → JournalEmailSchedule → JournalEmailSchedule
with_format none s = s
with_format (some format) s = record s { format = format }

module _ ⦃sql : Sql⦄ ⦃redis : Redis⦄ where
  -- `replace` raises `ValueError` outside 0..23 and 0..59.
  unfoldable pub compute_next_run : String → Exec World ℕ
  compute_next_run time_str = do
    let (h, m) = hour_minute time_str
    raise_if (ltb 23 h || ltb 59 m) value_error
    gets (λ w. next_at h m w.now)

  abbrev company_name : World → ℕ → Option String
  company_name w company_id = elim (sql.get company_id w.companies) [
    | none ↦ none
    | some company ↦ some company.name
  ]

  abbrev schedule_response : World → ℕ × JournalEmailSchedule → JournalScheduleResponse
  schedule_response w (id, s) = record {
    id = id;
    schedule = s;
    company_name = company_name w s.company_id;
  }

  abbrev by_id : JournalScheduleResponse → ℕ
  by_id r = r.id

  pub list_schedules : Option ℕ → Exec World (List JournalScheduleResponse)
  list_schedules company_id = gets (λ w. sql.order_by desc by_id (
      map (schedule_response w)
        (sql.select (λ _ s. set_and company_id (λ c. s.company_id == c)) w.journal_schedules)))

  pub create : JournalScheduleCreateRequest → Exec World JournalScheduleResponse
  unfolding compute_next_run
  create req = do
    company ← db_get companies req.company_id
    raise_if (is_none company) (business company_not_found)
    next_run_at ← compute_next_run req.time
    let s : JournalEmailSchedule = record {
      company_id = req.company_id;
      recipient_email = req.recipient_email;
      frequency = req.frequency;
      weekday = req.weekday;
      day_of_month = req.day_of_month;
      send_time = req.time;
      format = req.format;
      enabled = req.enabled;
      next_run_at = some next_run_at;
      last_run_at = none;
    }
    id ← add journal_schedules s
    gets (λ w. schedule_response w (id, s))

  -- The company of the row after an update: a new one is checked against the scope and must exist.
  unfoldable pub move_company :
      CompanyScope → Option ℕ → JournalEmailSchedule → Exec World JournalEmailSchedule
  move_company scope none s = pure s
  move_company scope (some company_id) s = if company_id == s.company_id then pure s else do
    assert_company scope (some company_id)
    company ← db_get companies company_id
    raise_if (is_none company) (business company_not_found)
    pure (record s { company_id = company_id })

  unfoldable pub with_time : Option String → JournalEmailSchedule → Exec World JournalEmailSchedule
  with_time none s = pure s
  with_time (some time) s = if not (opt_truthy (some time)) then pure s else do
    next_run_at ← compute_next_run time
    pure (record s { send_time = time; next_run_at = some next_run_at })

  -- The loaded row after the assignments of `update`.
  unfoldable pub changed_row :
      JournalScheduleUpdateRequest
      → CompanyScope
      → JournalEmailSchedule
      → Exec World JournalEmailSchedule
  changed_row req company_scope s = do
    assert_company company_scope (some s.company_id)
    moved ←
        move_company company_scope req.company_id
          (record s { enabled = given_or req.enabled s.enabled })
    timed ←
        with_time req.time (with_frequency req (with_email req.recipient_email moved) req.frequency)
    pure (with_format req.format timed)

  -- The row is written at the end: what was assigned before a raise never reaches the database.
  pub update : ℕ → JournalScheduleUpdateRequest → CompanyScope → Exec World JournalScheduleResponse
  update schedule_id req company_scope = do
    found ← db_get journal_schedules schedule_id
    s ← or_raise found (business resource_not_found)
    row ← changed_row req company_scope s
    write journal_schedules schedule_id row
    gets (λ w. schedule_response w (schedule_id, row))

  pub delete : ℕ → CompanyScope → Exec World (Unit {0})
  delete schedule_id company_scope = do
    found ← db_get journal_schedules schedule_id
    elim found [
      | none ↦ pure tt
      | some s ↦ do
        assert_company company_scope (some s.company_id)
        remove journal_schedules schedule_id
    ]
