-- ===== src/Deps/Tests.antt =====
-- The theorems on the scope and the request transaction for the charger park.
use rooti_server.Base.{ℕ, ◌≡◌, refl, ◌⊎◌, true, none, some}
use rooti_server.Errors.{business, conflict}
use rooti_server.Exec.{ok, Exec, raise, ◌>>◌}
use rooti_server.Models.{CompanyCharger}
use rooti_server.Models.Enums.{admin}
use rooti_server.World.{World}
use rooti_server.World.Session.{remove}
use rooti_server.World.{leaves}
use rooti_server.Security.{has_role, bare_role}
use rooti_server.Auth.{role_value}
use rooti_server.Tenant.{CompanyScope}
use rooti_server.Deps.{get_company_scope, require_roles, has_any}
use rooti_server.Deps.Scope.{get_company_scope_sound}
use rooti_server.Samples.{sql, redis, settings, office, park}

park_scope : get_company_scope park office ≡ (ok (some 0), office)
unfolding get_company_scope require_roles has_any role_value has_role bare_role
park_scope = refl

abbrev scope : CompanyScope
scope = some 0

get_company_scope_sound_example :
    (office ≡ office)
    × (((scope ≡ none) × (has_role park (role_value admin) ≡ true))
        ⊎ ((id : ℕ) × (row : CompanyCharger) × (sql.get id office.chargers ≡ some row)
            × (row.user_id ≡ 1)
            × (scope ≡ some row.company_id)))
get_company_scope_sound_example = get_company_scope_sound park office office scope park_scope

-- An endpoint that removes a leave and then raises.
abbrev failing : Exec World (Unit {0})
failing = remove leaves 0 >> raise (business conflict)

-- An endpoint that removes a leave and answers.
abbrev removing : Exec World (Unit {0})
removing = remove leaves 0
