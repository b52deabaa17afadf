-- ===== src/Chargers/Endpoints.antt =====
-- app/api/v1/company_chargers.py: an administrator only; a request that says nothing of the flag
-- sets it.
use rooti_server.Base.{ℕ, Bool, true, Option, none, some, [], ◌∷◌, String}
use rooti_server.Exec.{Exec, ◌>>◌}
use rooti_server.Sql.{Sql}
use rooti_server.Redis.{Redis}
use rooti_server.World.{World}
use rooti_server.Security.{PrincipalDetails}
use rooti_server.Deps.{require_roles}
use rooti_server.Pagination.{PageParams, Page}
use rooti_server.Models.Enums.{admin}
use rooti_server.Chargers.{ChargerResponse, search, set_hired}

module _ ⦃sql : Sql⦄ ⦃redis : Redis⦄ where
  pub list_chargers :
      PageParams → Option String → Option ℕ → PrincipalDetails → Exec World (Page ChargerResponse)
  list_chargers page keyword company_id me = do
    require_roles (admin ∷ []) me
    search keyword company_id page

  pub update_charger : ℕ → Option Bool → PrincipalDetails → Exec World ChargerResponse
  update_charger charger_id hired me = do
    require_roles (admin ∷ []) me
    set_hired charger_id (elim hired [ none ↦ true | some h ↦ h ])
