-- ===== src/Schedules/Tests.antt =====
-- The theorems on schedules for one standard with two job workers.
use rooti_server.Base.{
  ℕ, ◌≤◌, ◌/◌, ◌≡◌, ◌≢◌, ◌↔◌, refl, true, none, some, [], ◌∷◌, arith, map, filter,
}
use rooti_server.Exec.{ok}
use rooti_server.Models.{JobWorker}
use rooti_server.World.{World}
use rooti_server.Schedules.{
  BatchMakeRequest, ScheduleResponse, micros_per_day, last_moment, new_schedule, is_assigned,
  batch_make, add_all, list_for_job_worker,
}
use rooti_server.Schedules.Batch.{Inserted, AllStored, stored_row, batch_make_exact}
use rooti_server.Schedules.Window.{Shows, shown_response, list_for_job_worker_exact}
use rooti_server.Samples.{sql, redis, settings, office, standard}

abbrev job_worker : ℕ → JobWorker
job_worker job_standard_id = record {
  company_worker_id = 0;
  job_standard_id = job_standard_id;
  use_flag = true;
  context = none;
}

abbrev staffed : World
staffed = record office {
  job_standards = some standard ∷ [];
  job_workers = some (job_worker 0) ∷ some (job_worker 7) ∷ [];
}

abbrev request : BatchMakeRequest
request = record {
  job_standard_id = 0;
  date = 20000;
  company_charger_id = none;
  job_worker_ids = 0 ∷ 1 ∷ 9 ∷ [];
}

abbrev response : ScheduleResponse
response = record { id = 0; schedule = new_schedule request 0; job_standard_name = some "baking" }

abbrev scheduled : World
scheduled = record staffed { schedules = some (new_schedule request 0) ∷ [] }

one_made : batch_make request staffed ≡ (ok (response ∷ []), scheduled)
unfolding batch_make add_all
one_made = refl

batch_make_exact_example :
    (map (λ (r : ScheduleResponse). r.schedule) (response ∷ [])
      ≡ map (new_schedule request) (filter (is_assigned staffed 0) (0 ∷ 1 ∷ 9 ∷ [])))
    × Inserted (map stored_row (response ∷ [])) staffed.schedules scheduled.schedules
    × AllStored (map stored_row (response ∷ [])) scheduled.schedules
batch_make_exact_example = batch_make_exact request staffed scheduled (response ∷ []) one_made

list_for_job_worker_exact_example :
    Shows
      (shown_response 0 (new_schedule request 0) standard)
      (list_for_job_worker 0 19990 20010 scheduled).0
    ↔ (((new_schedule request 0).job_worker_id ≡ 0)
        × (19990 ≤ (new_schedule request 0).start_at / micros_per_day)
        × ((new_schedule request 0).start_at / micros_per_day ≤ 20010)
        × ((new_schedule request 0).start_at ≢ last_moment 20010))
list_for_job_worker_exact_example =
    list_for_job_worker_exact 0 19990 20010 0 (new_schedule request 0) standard scheduled refl refl
      (omega arith)
