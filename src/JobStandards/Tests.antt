-- ===== src/JobStandards/Tests.antt =====
-- The theorem on processes for a standard with two of them.
use rooti_server.Base.{
  ℕ, ◌≡◌, ◌⊎◌, refl, not, ◌&&◌, ◌==◌, none, some, List, [], ◌∷◌, String, is_none,
}
use rooti_server.Exec.{ok}
use rooti_server.Models.{JobProcess}
use rooti_server.World.{World}
use rooti_server.JobStandards.Requests.{
  ProcessUpsertRequest, JobStandardResponse, new_process, requested,
}
use rooti_server.JobStandards.{
  get_or_throw, company_name, processes_of, sync_one, sync_all, delete_rows, sync_rows,
  sync_processes,
}
use rooti_server.JobStandards.Sync.{sync_processes_exact}
use rooti_server.Samples.{sql, redis, office, standard}

abbrev process : String → ℕ → JobProcess
process name sequence = record {
  job_standard_id = 0;
  name = name;
  sequence = sequence;
  video_path = none;
  start_message = none;
  end_message = none;
  context = none;
  process_time = 60;
}

abbrev knead : ProcessUpsertRequest
knead = record {
  id = some 0;
  name = "knead";
  sequence = 0;
  video_path = none;
  start_message = none;
  end_message = none;
  context = none;
  process_time_seconds = 60;
}

abbrev baked : World
baked = record office {
  job_standards = some standard ∷ [];
  job_processes = some (process "mix" 0) ∷ some (process "bake" 1) ∷ [];
}

abbrev incoming : List ProcessUpsertRequest
incoming = knead ∷ record knead { id = none; name = "cool"; sequence = 2 } ∷ []

abbrev synced : World
synced = record baked {
  job_processes = some (process "knead" 0) ∷ none ∷ some (process "cool" 2) ∷ [];
}

abbrev response : JobStandardResponse
response = record {
  id = 0;
  standard = standard;
  company_name = some "acme";
  processes = (0, process "knead" 0) ∷ (2, process "cool" 2) ∷ [];
}

sync_run : sync_processes 0 incoming baked ≡ (ok response, synced)
unfolding sync_processes get_or_throw company_name sync_rows processes_of sync_all sync_one
    delete_rows new_process
sync_run = refl

sync_processes_exact_example :
    (is_none (sql.get 1 synced.job_processes) ≡ (not (requested 1 incoming) && 0 == 0))
    × (((process "bake" 1).job_standard_id ≡ 0)
        ⊎ (sql.get 1 synced.job_processes ≡ some (process "bake" 1)))
sync_processes_exact_example =
    sync_processes_exact 0 incoming baked synced 1 (process "bake" 1) response sync_run refl
