-- ===== src/Users/Endpoints.antt =====
-- app/api/v1/users.py: an administrator only.
use rooti_server.Base.{ℕ, Bool, Option, [], ◌∷◌, String}
use rooti_server.Exec.{Exec, ◌>>◌}
use rooti_server.Sql.{Sql}
use rooti_server.Redis.{Redis}
use rooti_server.World.{World}
use rooti_server.Security.{PrincipalDetails}
use rooti_server.Deps.{require_roles}
use rooti_server.Pagination.{PageParams, Page}
use rooti_server.Models.Enums.{UserRole, admin}
use rooti_server.Models.{User}
use rooti_server.Users.{search, set_enabled as set_account_enabled}

module _ ⦃sql : Sql⦄ ⦃redis : Redis⦄ where
  pub list_users :
      PageParams → Option String → Option UserRole → PrincipalDetails → Exec World (Page (ℕ × User))
  list_users page keyword role me = do require_roles (admin ∷ []) me; search keyword role page

  pub set_enabled : ℕ → Bool → PrincipalDetails → Exec World (ℕ × User)
  set_enabled user_id enabled me = do
    require_roles (admin ∷ []) me
    set_account_enabled user_id enabled
