-- ===== src/Caregivers/Endpoints.antt =====
-- app/api/v1/caregivers.py: only a caregiver, and only on the own relations.
use rooti_server.Base.{ℕ, List, [], ◌∷◌}
use rooti_server.Exec.{Exec, ◌>>◌}
use rooti_server.Sql.{Sql}
use rooti_server.Redis.{Redis}
use rooti_server.World.{World}
use rooti_server.Security.{PrincipalDetails}
use rooti_server.Deps.{require_roles}
use rooti_server.Models.Enums.{caregiver}
use rooti_server.Models.{Caregiver, CaregiverWorkerRelation}
use rooti_server.Caregivers.{
  me as own, register_worker as register, list_relations, remove_relation as remove_own,
}

module _ ⦃sql : Sql⦄ ⦃redis : Redis⦄ where
  pub me : PrincipalDetails → Exec World (ℕ × Caregiver)
  me me_principal = do require_roles (caregiver ∷ []) me_principal; own me_principal.user_id

  pub list_my_relations : PrincipalDetails → Exec World (List (ℕ × CaregiverWorkerRelation))
  list_my_relations me_principal = do
    require_roles (caregiver ∷ []) me_principal
    list_relations me_principal.user_id

  pub register_worker : ℕ → PrincipalDetails → Exec World (ℕ × CaregiverWorkerRelation)
  register_worker worker_id me_principal = do
    require_roles (caregiver ∷ []) me_principal
    register me_principal.user_id worker_id

  pub remove_relation : ℕ → PrincipalDetails → Exec World (Unit {0})
  remove_relation relation_id me_principal = do
    require_roles (caregiver ∷ []) me_principal
    remove_own me_principal.user_id relation_id
