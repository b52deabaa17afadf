-- ===== src/Chargers/Tests.antt =====
-- The theorem on the hired flag for the charger park.
use rooti_server.Base.{ℕ, ◌≡◌, refl, false, some}
use rooti_server.Exec.{ok}
use rooti_server.Security.{has_role, bare_role}
use rooti_server.Auth.{role_value}
use rooti_server.Deps.{get_company_scope, has_any}
use rooti_server.Chargers.{set_hired}
use rooti_server.Chargers.Hired.{ChargesOnce, unhired_keeps_scope}
use rooti_server.Samples.{sql, redis, office, park, acme_charger}

office-ChargesOnce : ChargesOnce office
office-ChargesOnce user_id ℕ.zero ℕ.zero r s gr pr gs ps = refl
office-ChargesOnce user_id (ℕ.suc j) k r s gr pr gs ps = cc
office-ChargesOnce user_id ℕ.zero (ℕ.suc k) r s gr pr gs ps = cc

unhired_keeps_scope_example : (get_company_scope park (set_hired 0 false office).1).0 ≡ ok (some 0)
unfolding has_any has_role role_value bare_role
unhired_keeps_scope_example =
    unhired_keeps_scope 0 acme_charger false park office office-ChargesOnce refl refl refl refl
