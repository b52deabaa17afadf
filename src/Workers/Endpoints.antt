-- ===== src/Workers/Endpoints.antt =====
-- app/api/v1/workers.py: every signed-in user reads, an administrator or a charger writes.
use rooti_server.Base.{ℕ, Option, List, String}
use rooti_server.Exec.{Exec, ◌>>◌}
use rooti_server.Sql.{Sql}
use rooti_server.Redis.{Redis}
use rooti_server.Crypto.{Crypto}
use rooti_server.World.{World}
use rooti_server.Security.{Settings, PrincipalDetails}
use rooti_server.Deps.{require_admin_or_charger}
use rooti_server.Pagination.{PageParams, Page}
use rooti_server.Workers.{
  WorkerCreateRequest, WorkerResponse, CompanyWorkerResponse, get, search, hire, fire, retire,
  rehire, list_by_company as by_company, list_memberships as memberships, create,
}

module _ ⦃sql : Sql⦄ ⦃redis : Redis⦄ where
  pub list_workers :
      PageParams
      → Option String
      → Option String
      → PrincipalDetails
      → Exec World (Page WorkerResponse)
  list_workers page keyword employment_status me = search keyword page employment_status

  pub get_worker : ℕ → PrincipalDetails → Exec World WorkerResponse
  get_worker worker_id me = get worker_id

  pub list_memberships : ℕ → PrincipalDetails → Exec World (List CompanyWorkerResponse)
  list_memberships worker_id me = memberships worker_id

  pub hire_worker : ℕ → ℕ → PrincipalDetails → Exec World CompanyWorkerResponse
  hire_worker company_id worker_id me = do require_admin_or_charger me; hire company_id worker_id

  pub fire_company_worker : ℕ → PrincipalDetails → Exec World (Unit {0})
  fire_company_worker company_worker_id me = do require_admin_or_charger me; fire company_worker_id

  pub retire_worker : ℕ → PrincipalDetails → Exec World WorkerResponse
  retire_worker worker_id me = do require_admin_or_charger me; retire worker_id

  pub rehire_worker : ℕ → PrincipalDetails → Exec World WorkerResponse
  rehire_worker worker_id me = do require_admin_or_charger me; rehire worker_id

  pub list_by_company : ℕ → PageParams → PrincipalDetails → Exec World (Page CompanyWorkerResponse)
  list_by_company company_id page me = by_company company_id page

module _ ⦃sql : Sql⦄ ⦃redis : Redis⦄ ⦃crypto : Crypto⦄ ⦃settings : Settings⦄ where
  pub create_worker : WorkerCreateRequest → PrincipalDetails → Exec World WorkerResponse
  create_worker req me = do require_admin_or_charger me; create req
