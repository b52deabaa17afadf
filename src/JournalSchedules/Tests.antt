-- ===== src/JournalSchedules/Tests.antt =====
-- The theorems on mail schedules for one weekly schedule of the first company.
use rooti_server.Base.{◌+◌, ◌*◌, ◌%◌, ◌≤◌, ◌<◌, ◌≡◌, refl, true, none, some, [], ◌∷◌}
use rooti_server.Exec.{ok}
use rooti_server.Models.{JournalEmailSchedule}
use rooti_server.Models.Enums.{weekly, monthly, fri, pdf}
use rooti_server.World.{World}
use rooti_server.Tenant.{assert_company}
use rooti_server.Text.Decimal.{int_of}
use rooti_server.JournalSchedules.{
  JournalScheduleUpdateRequest, JournalScheduleResponse, hour_minute, compute_next_run,
  move_company, with_frequency, with_time, changed_row, update,
}
use rooti_server.JournalSchedules.NextRun.{compute_next_run_bounds}
use rooti_server.JournalSchedules.Updates.{IsConsistent, update_frequency_fits}
use rooti_server.Samples.{sql, redis, office}

abbrev schedule : JournalEmailSchedule
schedule = record {
  company_id = 0;
  recipient_email = "a@acme.kr";
  frequency = weekly;
  weekday = some fri;
  day_of_month = none;
  send_time = "09:00";
  format = pdf;
  enabled = true;
  next_run_at = some 32400;
  last_run_at = none;
}

abbrev mailed : World
mailed = record office { journal_schedules = some schedule ∷ [] }

abbrev request : JournalScheduleUpdateRequest
request = record {
  company_id = none;
  recipient_email = none;
  frequency = some monthly;
  weekday = none;
  day_of_month = none;
  time = some "00:10";
  format = none;
  enabled = none;
}

abbrev changed : JournalEmailSchedule
changed = record schedule {
  frequency = monthly;
  weekday = none;
  day_of_month = some 1;
  send_time = "00:10";
  next_run_at = some 87000;
}

abbrev response : JournalScheduleResponse
response = record { id = 0; schedule = changed; company_name = some "acme" }

updated :
    update 0 request (some 0) mailed
    ≡ (ok response, record mailed { journal_schedules = some changed ∷ [] })
unfolding update changed_row assert_company move_company with_frequency with_time compute_next_run
    hour_minute int_of
updated = refl

update_frequency_fits_example :
    IsConsistent changed
    × (changed.frequency ≡ monthly)
    × (sql.get 0 (record mailed { journal_schedules = some changed ∷ [] }).journal_schedules
        ≡ some changed)
update_frequency_fits_example =
    update_frequency_fits 0 request monthly (some 0) mailed
      (record mailed { journal_schedules = some changed ∷ [] }) response refl updated

computed : compute_next_run "00:10" mailed ≡ (ok 87000, mailed)
unfolding compute_next_run hour_minute int_of
computed = refl

compute_next_run_bounds_example :
    (1000 ≤ 87000)
    × (87000 < 1000 + 86400)
    × (87000 % 86400 ≡ (hour_minute "00:10").0 * 3600 + (hour_minute "00:10").1 * 60)
compute_next_run_bounds_example = compute_next_run_bounds "00:10" mailed mailed 87000 computed
