-- ===== src/Caregivers.antt =====
-- app/services/caregiver.py: the workers that a caregiver looks after.
pub mod Ownership
pub mod Endpoints
mod Tests
use rooti_server.Base.{
  ℕ, Bool, true, false, not, ◌&&◌, Option, none, some, List, ◌==◌, is_none, if◌then◌else◌,
}
use rooti_server.Errors.{
  business, caregiver_not_found, caregiver_relation_duplicated, worker_not_found, auth_forbidden,
}
use rooti_server.Exec.{Exec, pure, gets, raise_if, or_raise, ◌>>=◌, ◌>>◌}
use rooti_server.Sql.{Sql, desc}
use rooti_server.Redis.{Redis}
use rooti_server.Models.{Caregiver, CaregiverWorkerRelation}
use rooti_server.World.{World, caregivers, relations, workers}
use rooti_server.World.Session.{db_get, add, remove, query_first, query_one}

-- The condition of the query for a duplicate in `register_worker`.
abbrev pub is_relation : ℕ → ℕ → ℕ → CaregiverWorkerRelation → Bool
is_relation caregiver_id worker_id id r =
    r.caregiver_id == caregiver_id && r.challenged_worker_id == worker_id

module _ ⦃sql : Sql⦄ ⦃redis : Redis⦄ where
  unfoldable pub get_by_user_id : ℕ → Exec World (ℕ × Caregiver)
  get_by_user_id user_id = do
    found ← query_one caregivers (λ _ c. c.user_id == user_id)
    or_raise found (business caregiver_not_found)

  pub me : ℕ → Exec World (ℕ × Caregiver)
  unfolding get_by_user_id
  me user_id = get_by_user_id user_id

  pub register_worker : ℕ → ℕ → Exec World (ℕ × CaregiverWorkerRelation)
  unfolding get_by_user_id
  register_worker caregiver_user_id worker_id = do
    (caregiver_id, caregiver) ← get_by_user_id caregiver_user_id
    dup ← query_first relations (is_relation caregiver_id worker_id)
    raise_if (not (is_none dup)) (business caregiver_relation_duplicated)
    worker ← db_get workers worker_id
    raise_if (is_none worker) (business worker_not_found)
    let relation : CaregiverWorkerRelation = record {
      caregiver_id = caregiver_id;
      challenged_worker_id = worker_id;
    }
    id ← add relations relation
    pure (id, relation)

  abbrev by_id : ℕ × CaregiverWorkerRelation → ℕ
  by_id (id, r) = id

  pub list_relations : ℕ → Exec World (List (ℕ × CaregiverWorkerRelation))
  unfolding get_by_user_id
  list_relations caregiver_user_id = do
    (caregiver_id, caregiver) ← get_by_user_id caregiver_user_id
    gets (λ w.
        sql.order_by desc by_id (sql.select (λ _ r. r.caregiver_id == caregiver_id) w.relations))

  pub remove_relation : ℕ → ℕ → Exec World (Unit {0})
  unfolding get_by_user_id
  remove_relation caregiver_user_id relation_id = do
    (caregiver_id, caregiver) ← get_by_user_id caregiver_user_id
    found ← db_get relations relation_id
    relation ← or_raise found (business caregiver_not_found)
    raise_if (not (relation.caregiver_id == caregiver_id)) (business auth_forbidden)
    remove relations relation_id
