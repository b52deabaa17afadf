-- ===== src/Assignments/Tests.antt =====
-- The theorem on assignments for one hired worker and one standard.
use rooti_server.Base.{ℕ, refl, true, some, [], ◌∷◌}
use rooti_server.Models.{CompanyWorker}
use rooti_server.World.{World}
use rooti_server.Assignments.{new_assignment}
use rooti_server.Assignments.Reassign.{AssignedOnce}
use rooti_server.Samples.{sql, redis, office, standard}

abbrev hired : CompanyWorker
hired = record { company_id = 0; challenged_worker_id = 0; is_hired = true }

abbrev assigned : World
assigned = record office {
  company_workers = some hired ∷ [];
  job_standards = some standard ∷ [];
  job_workers = some (new_assignment 0 0) ∷ [];
}

assigned-AssignedOnce : AssignedOnce assigned
assigned-AssignedOnce worker job ℕ.zero ℕ.zero r s gr pr gs ps = refl
assigned-AssignedOnce worker job (ℕ.suc j) k r s gr pr gs ps = cc
assigned-AssignedOnce worker job ℕ.zero (ℕ.suc k) r s gr pr gs ps = cc
