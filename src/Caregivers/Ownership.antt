-- ===== src/Caregivers/Ownership.antt =====
-- A caregiver changes the own relations only.
use rooti_server.Base.{ℕ, ◌≡◌, ◌≢◌, ◌↔◌, inl, inr, some, arith, Option-cases}
use rooti_server.Exec.{ok}
use rooti_server.Sql.{Sql}
use rooti_server.Redis.{Redis}
use rooti_server.Models.{Caregiver, CaregiverWorkerRelation}
use rooti_server.World.{World}
use rooti_server.Caregivers.{get_by_user_id, register_worker, remove_relation}

pub data CaregiverCall : Type 0 where
  register_call : ℕ → CaregiverCall
  remove_call : ℕ → CaregiverCall

module _ ⦃sql : Sql⦄ ⦃redis : Redis⦄ where
  abbrev pub call : ℕ → CaregiverCall → World → World
  call user_id (register_call worker_id) w = (register_worker user_id worker_id w).1
  call user_id (remove_call relation_id) w = (remove_relation user_id relation_id w).1

  -- A caregiver who registers a worker or removes a relation leaves the relations of every other
  -- caregiver as they were.
  pub others_relations_kept :
      (user_id id : ℕ) (caregiver : Caregiver) (c : CaregiverCall) (w : World) (j : ℕ)
      (r : CaregiverWorkerRelation)
      → get_by_user_id user_id w ≡ (ok (id, caregiver), w)
      → r.caregiver_id ≢ id
      → (sql.get j (call user_id c w).relations ≡ some r) ↔ (sql.get j w.relations ≡ some r)
  unfolding register_worker remove_relation
  others_relations_kept user_id id caregiver (register_call worker_id) w j r own other =
      let row : CaregiverWorkerRelation = record {
        caregiver_id = id;
        challenged_worker_id = worker_id;
      } in
      elim (Option-cases (sql.insert row w.relations)) [
        | inl refused ↦ (ground (arith, own), ground (arith, own))
        | inr (added, e) ↦
            let at = sql.get-insert row w.relations added.0 added.1 j e in
            let fresh = sql.insert_fresh row w.relations added.0 added.1 e in
            (ground (arith, own, at, fresh), ground (arith, own, at, fresh))
      ]
  others_relations_kept user_id id caregiver (remove_call relation_id) w j r own other =
      elim (Option-cases (sql.get relation_id w.relations)) [
        | inl missing ↦ (ground (arith, own), ground (arith, own))
        | inr (found, e) ↦
            let at = sql.get-delete relation_id w.relations j in
            (ground (arith, own, at), ground (arith, own, at))
      ]
