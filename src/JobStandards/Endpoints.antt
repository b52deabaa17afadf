-- ===== src/JobStandards/Endpoints.antt =====
-- app/api/v1/job_standards.py: reads need a signed-in user, writes the role of an administrator or a
-- charger.
use rooti_server.Base.{ℕ, true, Option, List, String}
use rooti_server.Exec.{Exec, ◌>>◌}
use rooti_server.Sql.{Sql}
use rooti_server.Redis.{Redis}
use rooti_server.World.{World}
use rooti_server.Security.{PrincipalDetails}
use rooti_server.Deps.{require_admin_or_charger}
use rooti_server.Pagination.{PageParams, Page}
use rooti_server.Cache.{Json, Model}
use rooti_server.JobStandards.Requests.{
  ProcessUpsertRequest, JobStandardCreateRequest, JobStandardUpdateRequest, JobStandardResponse,
}
use rooti_server.JobStandards.{search, create, update, deactivate, sync_processes, get}

module _ ⦃sql : Sql⦄ ⦃redis : Redis⦄ where
  pub list_standards :
      PageParams
      → Option ℕ
      → Option String
      → PrincipalDetails
      → Exec World (Page JobStandardResponse)
  list_standards page company_id keyword me = search company_id keyword page

  pub create_standard : JobStandardCreateRequest → PrincipalDetails → Exec World JobStandardResponse
  create_standard req me = do require_admin_or_charger me; create true req

  pub update_standard :
      ℕ → JobStandardUpdateRequest → PrincipalDetails → Exec World JobStandardResponse
  update_standard standard_id req me = do require_admin_or_charger me; update true standard_id req

  pub sync_standard_processes :
      ℕ → List ProcessUpsertRequest → PrincipalDetails → Exec World JobStandardResponse
  sync_standard_processes standard_id processes me = do
    require_admin_or_charger me
    sync_processes standard_id processes

  pub deactivate_standard : ℕ → PrincipalDetails → Exec World (Unit {0})
  deactivate_standard standard_id me = do require_admin_or_charger me; deactivate true standard_id

module _ ⦃sql : Sql⦄ ⦃redis : Redis⦄ ⦃json : Json⦄ ⦃model : Model JobStandardResponse⦄ where
  pub get_standard : ℕ → PrincipalDetails → Exec World JobStandardResponse
  get_standard standard_id me = get true standard_id
