-- ===== src/WorkRecords/Tests.antt =====
-- The theorems on work records for one schedule.
use rooti_server.Base.{ℕ, ◌≡◌, ◌≢◌, refl, false, none, some, [], ◌∷◌}
use rooti_server.Errors.{multiple_results}
use rooti_server.Exec.{ok, err, ◌>>◌}
use rooti_server.Models.{WorkSchedule, WorkRecord}
use rooti_server.Models.Enums.{on, WorkRecordType-discrete}
use rooti_server.World.{World}
use rooti_server.WorkRecords.{
  RecordRequest, begin, begin_check, begin_write, end_record, find_open_record,
}
use rooti_server.WorkRecords.Open.{OpenUnique}
use rooti_server.WorkRecords.Requests.{
  begin_call, end_call, calls, calls_keep_one_open, overlapping_begins,
}
use rooti_server.Samples.{sql, redis, settings, office}

abbrev schedule : WorkSchedule
schedule = record {
  job_worker_id = 0;
  company_charger_id = none;
  job_standard_id = 0;
  start_at = 900;
  end_at = none;
  work_doc_path = none;
  make_work_doc = false;
}

abbrev request : RecordRequest
request = record { work_schedule_id = 0; type = on; at_time = none }

abbrev scheduled : World
scheduled = record office { schedules = some schedule ∷ [] }

abbrev begun : WorkRecord
begun = record { work_schedule_id = 0; type = on; start_at = 1000; end_at = none }

abbrev closed : WorkRecord
closed = record begun { end_at = some 1000 }

abbrev working : World
working = record scheduled { records = some begun ∷ [] }

scheduled-OpenUnique : OpenUnique scheduled
scheduled-OpenUnique id type j k r s gr pr gs ps = cc

working-OpenUnique : OpenUnique working
working-OpenUnique id type ℕ.zero ℕ.zero r s gr pr gs ps = refl
working-OpenUnique id type (ℕ.suc j) k r s gr pr gs ps = cc
working-OpenUnique id type ℕ.zero (ℕ.suc k) r s gr pr gs ps = cc

calls_keep_one_open_example :
    let w' = calls ((1000, begin_call request) ∷ (1100, end_call request) ∷ []) working in
    OpenUnique w'
    × ((begin request w').0 ≢ err multiple_results)
    × ((end_record request w').0 ≢ err multiple_results)
calls_keep_one_open_example =
    calls_keep_one_open ((1000, begin_call request) ∷ (1100, end_call request) ∷ []) working request
      working-OpenUnique

ended : end_record request working ≡ (ok (0, closed), record working { records = some closed ∷ [] })
unfolding end_record find_open_record WorkRecordType-discrete
ended = refl

abbrev doubled : World
doubled = record scheduled { records = some begun ∷ some begun ∷ [] }

overlapped :
    (begin_check request >> (begin_check request >> (begin_write request >> begin_write request)))
      scheduled
    ≡ (ok (1, begun), doubled)
unfolding begin_check begin_write find_open_record WorkRecordType-discrete
overlapped = refl

overlapping_begins_example : end_record request doubled ≡ (err multiple_results, doubled)
overlapping_begins_example = overlapping_begins request scheduled doubled (1, begun) overlapped
