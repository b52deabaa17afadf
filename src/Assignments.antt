-- ===== src/Assignments.antt =====
-- `JobWorkerService` of app/services/job.py: which job standards a hired worker is assigned to.
pub mod Reassign
pub mod Endpoints
mod Tests
use rooti_server.Base.{
  ℕ, Bool, true, false, not, ◌&&◌, Option, none, some, List, String, ◌==◌, is_none, if◌then◌else◌,
}
use rooti_server.Errors.{
  business, worker_not_found, job_standard_not_found, job_worker_already_assigned,
  job_worker_not_found,
}
use rooti_server.Exec.{Exec, pure, gets, raise_if, or_raise, ◌>>=◌, ◌>>◌}
use rooti_server.Sql.{Sql}
use rooti_server.Sql.Query.{inner_join}
use rooti_server.Redis.{Redis}
use rooti_server.Models.{JobWorker, JobStandard, CompanyWorker}
use rooti_server.World.{World, job_workers, job_standards, company_workers}
use rooti_server.World.Session.{db_get, add, write, query_one}

pub record JobWorkerResponse : Type 0 where
  pub id : ℕ
  pub job_standard_id : ℕ
  pub job_standard_name : String
  pub company_worker_id : ℕ
  pub use_flag : Bool

abbrev pub job_worker_response : ℕ → JobWorker → JobStandard → JobWorkerResponse
job_worker_response id jw standard = record {
  id = id;
  job_standard_id = jw.job_standard_id;
  job_standard_name = standard.name;
  company_worker_id = jw.company_worker_id;
  use_flag = jw.use_flag;
}

-- The condition of the query for an existing assignment.
abbrev pub is_assignment : ℕ → ℕ → ℕ → JobWorker → Bool
is_assignment company_worker_id job_standard_id id jw =
    jw.company_worker_id == company_worker_id && jw.job_standard_id == job_standard_id

abbrev pub new_assignment : ℕ → ℕ → JobWorker
new_assignment company_worker_id job_standard_id = record {
  company_worker_id = company_worker_id;
  job_standard_id = job_standard_id;
  use_flag = true;
  context = none;
}

module _ ⦃sql : Sql⦄ ⦃redis : Redis⦄ where
  add_assignment : ℕ → ℕ → JobStandard → Exec World JobWorkerResponse
  add_assignment company_worker_id job_standard_id standard = do
    id ← add job_workers (new_assignment company_worker_id job_standard_id)
    pure (job_worker_response id (new_assignment company_worker_id job_standard_id) standard)

  reactivate : ℕ → JobWorker → JobStandard → Exec World JobWorkerResponse
  reactivate id existing standard = do
    raise_if existing.use_flag (business job_worker_already_assigned)
    let active : JobWorker = record existing { use_flag = true }
    write job_workers id active
    pure (job_worker_response id active standard)

  pub assign : ℕ → ℕ → Exec World JobWorkerResponse
  unfolding add_assignment reactivate
  assign company_worker_id job_standard_id = do
    worker ← db_get company_workers company_worker_id
    raise_if (is_none worker) (business worker_not_found)
    found ← db_get job_standards job_standard_id
    standard ← or_raise found (business job_standard_not_found)
    existing ← query_one job_workers (is_assignment company_worker_id job_standard_id)
    elim existing [
      | none ↦ add_assignment company_worker_id job_standard_id standard
      | some (id, jw) ↦ reactivate id jw standard
    ]

  pub unassign : ℕ → Exec World (Unit {0})
  unassign job_worker_id = do
    found ← db_get job_workers job_worker_id
    jw ← or_raise found (business job_worker_not_found)
    write job_workers job_worker_id (record jw { use_flag = false })

  -- `select(JobWorker, JobStandard).join(JobStandard, …)` for one assignment
  abbrev assignment_row : World → ℕ × JobWorker → Option JobWorkerResponse
  assignment_row w (id, jw) = elim (sql.get jw.job_standard_id w.job_standards) [
    | none ↦ none
    | some standard ↦ some (job_worker_response id jw standard)
  ]

  pub list_by_job_standard : ℕ → Exec World (List JobWorkerResponse)
  list_by_job_standard job_standard_id = gets (λ w.
      inner_join (assignment_row w)
        (sql.select (λ _ jw. jw.job_standard_id == job_standard_id && jw.use_flag) w.job_workers))

  pub list_active_by_company_worker : ℕ → Exec World (List JobWorkerResponse)
  list_active_by_company_worker company_worker_id = gets (λ w.
      inner_join (assignment_row w) (
        sql.select (λ _ jw. jw.company_worker_id == company_worker_id && jw.use_flag)
          w.job_workers))
