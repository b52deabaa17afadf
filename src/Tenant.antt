-- ===== src/Tenant.antt =====
-- app/core/tenant.py: the company scope of a user. `none` is an administrator, who sees every
-- company; a charger is held to one.
use rooti_server.Base.{ℕ, Option, none, some, not, ◌==◌, opt_eq, if◌then◌else◌}
use rooti_server.Errors.{business, auth_forbidden}
use rooti_server.Exec.{Exec, pure, raise, raise_if}

abbrev pub CompanyScope : Type 0
CompanyScope = Option ℕ

unfoldable pub resolve_company_filter : {S : Type 0} → CompanyScope → Option ℕ → Exec S (Option ℕ)
resolve_company_filter none requested = pure requested
resolve_company_filter (some scope) none = pure (some scope)
resolve_company_filter (some scope) (some requested) =
    if not (requested == scope) then raise (business auth_forbidden) else pure (some scope)

unfoldable pub assert_company : {S : Type 0} → CompanyScope → Option ℕ → Exec S (Unit {0})
assert_company none company_id = pure tt
assert_company (some scope) company_id =
    raise_if (not (opt_eq company_id (some scope))) (business auth_forbidden)
