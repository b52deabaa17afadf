-- ===== src/Assignments/Endpoints.antt =====
-- app/api/v1/job_workers.py: the first of the two filters that is given decides.
use rooti_server.Base.{ℕ, Option, none, some, List, []}
use rooti_server.Exec.{Exec, pure, ◌>>◌}
use rooti_server.Sql.{Sql}
use rooti_server.Redis.{Redis}
use rooti_server.World.{World}
use rooti_server.Security.{PrincipalDetails}
use rooti_server.Deps.{require_admin_or_charger}
use rooti_server.Assignments.{
  JobWorkerResponse, assign as assign_worker, unassign as unassign_worker, list_by_job_standard,
  list_active_by_company_worker,
}

module _ ⦃sql : Sql⦄ ⦃redis : Redis⦄ where
  pub list_assignments :
      Option ℕ → Option ℕ → PrincipalDetails → Exec World (List JobWorkerResponse)
  list_assignments (some job_standard_id) company_worker_id me =
      list_by_job_standard job_standard_id
  list_assignments none (some company_worker_id) me =
      list_active_by_company_worker company_worker_id
  list_assignments none none me = pure []

  pub assign : ℕ → ℕ → PrincipalDetails → Exec World JobWorkerResponse
  assign company_worker_id job_standard_id me = do
    require_admin_or_charger me
    assign_worker company_worker_id job_standard_id

  pub unassign : ℕ → PrincipalDetails → Exec World (Unit {0})
  unassign job_worker_id me = do require_admin_or_charger me; unassign_worker job_worker_id
