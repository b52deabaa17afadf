-- ===== src/JournalSchedules/Updates.antt =====
-- What an update can change, and whose schedules it reaches.
use rooti_server.Base.{
  ℕ, ◌≡◌, refl, ap, ◌∙◌, inl, inr, false, Option, none, some, arith, is_none, String, Option-cases,
}
use rooti_server.Exec.{ok, Result-cases, pure, ◌>>=◌, >>-eq-ok, >>=-eq-ok}
use rooti_server.Sql.{Sql}
use rooti_server.Redis.{Redis}
use rooti_server.Models.{JournalEmailSchedule}
use rooti_server.Models.Enums.{Frequency, JournalFormat, daily, weekly, monthly}
use rooti_server.World.{World}
use rooti_server.Tenant.{CompanyScope, assert_company}
use rooti_server.WorkRecords.{given_or}
use rooti_server.JournalSchedules.{
  JournalScheduleUpdateRequest, JournalScheduleResponse, with_frequency, with_email, with_format,
  with_time, move_company, changed_row, compute_next_run, update,
}

abbrev FitsFrequency : Frequency → JournalEmailSchedule → Type 0
FitsFrequency daily s = (s.weekday ≡ none) × (s.day_of_month ≡ none)
FitsFrequency weekly s = (is_none s.weekday ≡ false) × (s.day_of_month ≡ none)
FitsFrequency monthly s = (s.weekday ≡ none) × (is_none s.day_of_month ≡ false)

-- The day that a frequency needs is there, and the other one is not.
abbrev pub IsConsistent : JournalEmailSchedule → Type 0
IsConsistent s = FitsFrequency s.frequency s

with_frequency_fits :
    (req : JournalScheduleUpdateRequest) (s : JournalEmailSchedule) (f : Frequency)
    → IsConsistent (with_frequency req s (some f)) × ((with_frequency req s (some f)).frequency ≡ f)
unfolding with_frequency
with_frequency_fits req s daily = ((refl, refl), refl)
with_frequency_fits req s weekly = ((refl, refl), refl)
with_frequency_fits req s monthly = ((refl, ground arith), refl)

-- A row with the same frequency, weekday and day.
abbrev SameDays : JournalEmailSchedule → JournalEmailSchedule → Type 0
SameDays r s =
    (r.frequency ≡ s.frequency) × (r.weekday ≡ s.weekday) × (r.day_of_month ≡ s.day_of_month)

fits_same :
    (f g : Frequency) (r s : JournalEmailSchedule)
    → g ≡ f
    → FitsFrequency f s
    → SameDays r s
    → FitsFrequency g r
fits_same daily daily r s e (a, b) (c, d, i) = (d ∙ a, i ∙ b)
fits_same weekly weekly r s e (a, b) (c, d, i) = (ap is_none d ∙ a, i ∙ b)
fits_same monthly monthly r s e (a, b) (c, d, i) = (d ∙ a, ap is_none i ∙ b)
fits_same daily weekly r s e h k = cc
fits_same daily monthly r s e h k = cc
fits_same weekly daily r s e h k = cc
fits_same weekly monthly r s e h k = cc
fits_same monthly daily r s e h k = cc
fits_same monthly weekly r s e h k = cc

with_format_days :
    (format : Option JournalFormat) (s : JournalEmailSchedule) → SameDays (with_format format s) s
with_format_days none s = (refl, refl, refl)
with_format_days (some format) s = (refl, refl, refl)

module _ ⦃sql : Sql⦄ ⦃redis : Redis⦄ where
  move_company_same :
      (scope : CompanyScope) (company : Option ℕ) (s : JournalEmailSchedule) (w : World)
      → (move_company scope company s w).1 ≡ w
  unfolding move_company assert_company
  move_company_same scope none s w = refl
  move_company_same scope (some company) s w = ground arith

  with_time_same :
      (time : Option String) (s : JournalEmailSchedule) (w : World) → (with_time time s w).1 ≡ w
  unfolding with_time compute_next_run
  with_time_same none s w = refl
  with_time_same (some time) s w = ground arith

  with_time_days :
      (time : Option String) (s r : JournalEmailSchedule) (w : World)
      → (with_time time s w).0 ≡ ok r
      → SameDays r s
  unfolding with_time compute_next_run
  with_time_days none s r w h = (ground arith, ground arith, ground arith)
  with_time_days (some time) s r w h = (ground arith, ground arith, ground arith)

  assert_company_same :
      (scope : CompanyScope) (company : Option ℕ) (w : World)
      → (assert_company scope company w).1 ≡ w
  unfolding assert_company
  assert_company_same none company w = refl
  assert_company_same (some scope) company w = ground arith

  -- The assignments of an update that succeed change no table; the days are those of the frequency.
  changed_row_days :
      (req : JournalScheduleUpdateRequest) (scope : CompanyScope) (s row : JournalEmailSchedule)
      (w v : World)
      → changed_row req scope s w ≡ (ok row, v)
      → (v ≡ w)
        × ((before : JournalEmailSchedule) × SameDays row (with_frequency req before req.frequency))
  unfolding changed_row
  changed_row_days req scope s row w v h =
      let switched = record s { enabled = given_or req.enabled s.enabled } in
      let step1 = λ (moved : JournalEmailSchedule).
        with_frequency req (with_email req.recipient_email moved) req.frequency in
      let step2 = λ (moved : JournalEmailSchedule).
        with_time req.time (step1 moved) >>= (λ timed. pure (with_format req.format timed)) in
      let step3 = move_company scope req.company_id switched >>= step2 in
      let (a, v1, checked, rest) =
        >>-eq-ok (assert_company scope (some s.company_id)) step3 w v row h in
      let (moved, v2, found, rest2) =
        >>=-eq-ok (move_company scope req.company_id switched) step2 v1 v row rest in
      let (timed, v3, set, done) =
        >>=-eq-ok (with_time req.time (step1 moved)) (λ timed. pure (with_format req.format timed))
          v2 v row rest2 in
      let same1 = assert_company_same scope (some s.company_id) w in
      let same2 = move_company_same scope req.company_id switched v1 in
      let same3 = with_time_same req.time (step1 moved) v2 in
      let days = with_time_days req.time (step1 moved) timed v2 (ap (λ x. x.0) set) in
      let last = with_format_days req.format timed in
      let is_row : row ≡ with_format req.format timed = ground arith in
      (
        ground (arith, same1, same2, same3),
        (
          with_email req.recipient_email moved,
          rw is_row (last.0 ∙ days.0, last.1 ∙ days.1, last.2 ∙ days.2),
        ),
      )

  -- An update that succeeds stores the row of its response, which is the changed one.
  update_row :
      (id : ℕ) (req : JournalScheduleUpdateRequest) (scope : CompanyScope) (w w' : World)
      (response : JournalScheduleResponse)
      → update id req scope w ≡ (ok response, w')
      → (s : JournalEmailSchedule) × (v : World) × (sql.get id w.journal_schedules ≡ some s)
        × (changed_row req scope s w ≡ (ok response.schedule, v))
        × (w'.journal_schedules ≡ sql.update id response.schedule v.journal_schedules)
  unfolding update
  update_row id req scope w w' response h = elim (Option-cases (sql.get id w.journal_schedules)) [
    | inl missing ↦ absurd (ground arith)
    | inr (s, found) ↦ elim (Result-cases (changed_row req scope s w).0) [
      | inl (row, done) ↦ (s, (changed_row req scope s w).1, found, ground arith, ground arith)
      | inr (e, refused) ↦ absurd (ground arith)
    ]
  ]

  -- An update that sets the frequency and succeeds stores the row of its response, with that
  -- frequency and with the days that fit it: none for a daily schedule, a weekday alone for a weekly
  -- one, a day of the month alone for a monthly one.
  pub update_frequency_fits :
      (id : ℕ) (req : JournalScheduleUpdateRequest) (f : Frequency) (scope : CompanyScope)
      (w w' : World) (response : JournalScheduleResponse)
      → req.frequency ≡ some f
      → update id req scope w ≡ (ok response, w')
      → IsConsistent response.schedule
        × (response.schedule.frequency ≡ f)
        × (sql.get id w'.journal_schedules ≡ some response.schedule)
  update_frequency_fits id req f scope w w' response set h =
      let (s, v, found, done, stored) = update_row id req scope w w' response h in
      let (same_world, (before, days)) = changed_row_days req scope s response.schedule w v done in
      let fits = with_frequency_fits req before f in
      let e : with_frequency req before req.frequency ≡ with_frequency req before (some f) =
        ap (with_frequency req before) set in
      let same : SameDays response.schedule (with_frequency req before (some f)) = (
        days.0 ∙ ap (λ x. x.frequency) e,
        days.1 ∙ ap (λ x. x.weekday) e,
        days.2 ∙ ap (λ x. x.day_of_month) e,
      ) in
      (
        fits_same (with_frequency req before (some f)).frequency response.schedule.frequency
            response.schedule (with_frequency req before (some f)) same.0 fits.0 same,
        same.0 ∙ fits.1,
        ground (
          arith,
          stored,
          same_world,
          found,
          sql.get-update id response.schedule w.journal_schedules id,
        ),
      )
