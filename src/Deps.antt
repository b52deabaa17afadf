-- ===== src/Deps.antt =====
-- app/api/deps.py: the role guards of the endpoints and the company scope of the current user; and
-- the request transaction of `get_db_session` in app/core/database.py.
pub mod Scope
mod Tests
use rooti_server.Base.{
  ℕ, Bool, true, false, not, ◌||◌, Option, none, some, List, [], ◌∷◌, String, str_eq, ◌==◌,
  if◌then◌else◌,
}
use rooti_server.Errors.{business, auth_forbidden}
use rooti_server.Exec.{Result, ok, err, Exec, pure, raise, raise_if, or_raise, ◌>>=◌, ◌>>◌}
use rooti_server.Sql.{Sql}
use rooti_server.Redis.{Redis}
use rooti_server.Models.{CompanyCharger}
use rooti_server.Models.Enums.{UserRole, admin, charger, caregiver}
use rooti_server.World.{World, chargers}
use rooti_server.World.Session.{query_one}
use rooti_server.Security.{PrincipalDetails, has_role}
use rooti_server.Auth.{role_value}
use rooti_server.Tenant.{CompanyScope}

-- `role in roles`
abbrev holds : String → List String → Bool
holds role [] = false
holds role (r ∷ roles) = str_eq r role || holds role roles

-- `allowed & set(me.roles)` is not empty
unfoldable pub has_any : List UserRole → List String → Bool
has_any [] roles = false
has_any (a ∷ allowed) roles = holds (role_value a) roles || has_any allowed roles

-- `require_roles(*roles)`
unfoldable pub require_roles :
    {S : Type 0} → List UserRole → PrincipalDetails → Exec S PrincipalDetails
require_roles allowed me = do
  raise_if (not (has_any allowed me.roles)) (business auth_forbidden)
  pure me

abbrev pub require_admin_or_charger : {S : Type 0} → PrincipalDetails → Exec S PrincipalDetails
require_admin_or_charger = require_roles (admin ∷ charger ∷ [])

module _ ⦃sql : Sql⦄ ⦃redis : Redis⦄ where
  unfoldable pub charger_scope : PrincipalDetails → Exec World CompanyScope
  charger_scope me = do
    found ← query_one chargers (λ _ c. c.user_id == me.user_id)
    (id, company_charger) ← or_raise found (business auth_forbidden)
    pure (some company_charger.company_id)

  -- `get_company_scope`: every company for an administrator, the own one for a charger.
  unfoldable pub get_company_scope : PrincipalDetails → Exec World CompanyScope
  unfolding charger_scope
  get_company_scope me = do
    require_admin_or_charger me
    if has_role me (role_value admin) then pure none else charger_scope me

  -- The tables of `before` with the Redis store, the clock and the entropy of `after`: what a
  -- rollback leaves, since it undoes only what went through the session.
  unfoldable pub rollback : World → World → World
  rollback before after = record before {
    store = after.store;
    now = after.now;
    entropy = after.entropy;
  }

  -- `get_db_session` around an endpoint: commit, or roll back on an exception or in read-only mode.
  unfoldable pub request_transaction : {A : Type 0} → Bool → Exec World A → Exec World A
  unfolding rollback
  request_transaction read_only endpoint before =
      let (r, after) = endpoint before in
      elim r [
        | ok a ↦ (ok a, if read_only then rollback before after else after)
        | err e ↦ (err e, rollback before after)
      ]
