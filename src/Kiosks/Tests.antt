-- ===== src/Kiosks/Tests.antt =====
-- The theorems on kiosks for two companies with no kiosk yet.
use rooti_server.Base.{ℕ, ◌≡◌, refl, none, some, [], ◌∷◌}
use rooti_server.Exec.{ok}
use rooti_server.World.{World}
use rooti_server.Security.{has_role, bare_role}
use rooti_server.Auth.{role_value}
use rooti_server.Deps.{get_company_scope, require_roles, has_any}
use rooti_server.Kiosks.{
  KioskBindRequest, new_kiosk, bind_endpoint, set_assignee_endpoint, unbind_endpoint,
}
use rooti_server.Kiosks.Binding.{bind_call, call, BoundOnce, call-BoundOnce}
use rooti_server.Kiosks.Isolation.{OthersKept, charger_keeps_other_kiosks}
use rooti_server.Samples.{sql, redis, settings, office, park}

abbrev request : KioskBindRequest
request = record { company_id = 0; kiosk_id = "k1"; name = none; location = none; capacity = 5 }

-- A kiosk of the second company.
abbrev kiosked : World
kiosked = record office { kiosks = some (new_kiosk (record request { company_id = 1 })) ∷ [] }

park_scope : get_company_scope park kiosked ≡ (ok (some 0), kiosked)
unfolding get_company_scope require_roles has_any role_value has_role bare_role
park_scope = refl

charger_keeps_other_kiosks_example :
    OthersKept 0 kiosked (bind_endpoint request park kiosked).1
    × OthersKept 0 kiosked (set_assignee_endpoint 0 (some "jin") park kiosked).1
    × OthersKept 0 kiosked (unbind_endpoint 0 park kiosked).1
charger_keeps_other_kiosks_example =
    charger_keeps_other_kiosks park 0 kiosked request 0 (some "jin") park_scope

kiosked-BoundOnce : BoundOnce kiosked
kiosked-BoundOnce company kiosk_id ℕ.zero ℕ.zero r s gr pr gs ps = refl
kiosked-BoundOnce company kiosk_id (ℕ.suc j) k r s gr pr gs ps = cc
kiosked-BoundOnce company kiosk_id ℕ.zero (ℕ.suc k) r s gr pr gs ps = cc

call-BoundOnce_example : BoundOnce (call (bind_call request) kiosked)
call-BoundOnce_example = call-BoundOnce (bind_call request) kiosked kiosked-BoundOnce
