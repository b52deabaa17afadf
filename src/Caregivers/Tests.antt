-- ===== src/Caregivers/Tests.antt =====
-- The theorem on relations for the caregiver of user 3 and a relation of another caregiver.
use rooti_server.Base.{◌≡◌, ◌↔◌, refl, some, [], ◌∷◌, arith}
use rooti_server.Exec.{ok}
use rooti_server.Models.{Caregiver, CaregiverWorkerRelation}
use rooti_server.World.{World}
use rooti_server.Caregivers.{get_by_user_id}
use rooti_server.Caregivers.Ownership.{remove_call, call, others_relations_kept}
use rooti_server.Samples.{sql, redis, office}

abbrev first_caregiver : Caregiver
first_caregiver = record { user_id = 3 }

abbrev foreign : CaregiverWorkerRelation
foreign = record { caregiver_id = 1; challenged_worker_id = 0 }

abbrev cared : World
cared = record office {
  caregivers = some first_caregiver ∷ some (record { user_id = 4 }) ∷ [];
  relations = some foreign ∷ [];
}

own : get_by_user_id 3 cared ≡ (ok (0, first_caregiver), cared)
unfolding get_by_user_id
own = refl

others_relations_kept_example :
    (sql.get 0 (call 3 (remove_call 0) cared).relations ≡ some foreign)
    ↔ (sql.get 0 cared.relations ≡ some foreign)
others_relations_kept_example =
    others_relations_kept 3 0 first_caregiver (remove_call 0) cared 0 foreign own (λ e. omega arith)
