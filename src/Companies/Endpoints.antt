-- ===== src/Companies/Endpoints.antt =====
-- app/api/v1/companies.py: every signed-in user reads, an administrator writes.
use rooti_server.Base.{ℕ, true, Option, some, [], ◌∷◌, String}
use rooti_server.Exec.{Exec, ◌>>◌}
use rooti_server.Sql.{Sql}
use rooti_server.Redis.{Redis}
use rooti_server.World.{World}
use rooti_server.Models.Enums.{admin}
use rooti_server.Security.{PrincipalDetails}
use rooti_server.Deps.{require_roles}
use rooti_server.Pagination.{PageParams, Page}
use rooti_server.Cache.{Json, Model}
use rooti_server.Companies.Wire.{CompanyResponse}
use rooti_server.Companies.{
  CompanyCreateRequest, CompanyUpdateRequest, search, create, update, deactivate, get,
}

module _ ⦃sql : Sql⦄ ⦃redis : Redis⦄ where
  pub list_companies :
      PageParams → Option String → PrincipalDetails → Exec World (Page CompanyResponse)
  list_companies page keyword me = search keyword page

  pub create_company : CompanyCreateRequest → PrincipalDetails → Exec World CompanyResponse
  create_company req me = do require_roles (admin ∷ []) me; create req (some me)

  pub update_company : ℕ → CompanyUpdateRequest → PrincipalDetails → Exec World CompanyResponse
  update_company company_id req me = do
    require_roles (admin ∷ []) me
    update true company_id req (some me)

  pub deactivate_company : ℕ → PrincipalDetails → Exec World (Unit {0})
  deactivate_company company_id me = do
    require_roles (admin ∷ []) me
    deactivate true company_id (some me)

module _ ⦃sql : Sql⦄ ⦃redis : Redis⦄ ⦃json : Json⦄ ⦃model : Model CompanyResponse⦄ where
  pub get_company : ℕ → PrincipalDetails → Exec World CompanyResponse
  get_company company_id me = get true company_id
