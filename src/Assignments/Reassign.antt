-- ===== src/Assignments/Reassign.antt =====
-- A worker is assigned to a standard by one row, which is taken up again after an unassignment.
use rooti_server.Base.{ℕ, ◌≡◌, true, false, some, arith}
use rooti_server.Exec.{ok}
use rooti_server.Sql.{Sql}
use rooti_server.Sql.Query.{one_of_AtMostOne}
use rooti_server.Redis.{Redis}
use rooti_server.Models.{JobWorker, JobStandard, CompanyWorker}
use rooti_server.World.{World}
use rooti_server.Assignments.{job_worker_response, is_assignment, assign, unassign}

module _ ⦃sql : Sql⦄ ⦃redis : Redis⦄ where
  abbrev pub AssignedOnce : World → Type 0
  AssignedOnce w =
      (worker standard j k : ℕ) (r s : JobWorker)
      → sql.get j w.job_workers ≡ some r
      → is_assignment worker standard j r ≡ true
      → sql.get k w.job_workers ≡ some s
      → is_assignment worker standard k s ≡ true
      → j ≡ k

  deactivated-AssignedOnce :
      (id : ℕ) (jw : JobWorker) (w : World)
      → AssignedOnce w
      → sql.get id w.job_workers ≡ some jw
      → AssignedOnce
          (record w { job_workers = sql.update id (record jw { use_flag = false }) w.job_workers })
  deactivated-AssignedOnce id jw w u found c k i j r s gr pr gs ps =
      let at = λ (x : ℕ). sql.get-update id (record jw { use_flag = false }) w.job_workers x in
      ground (arith, at i, at j, u c k i j r s, u c k i j jw s, u c k i j r jw, u c k i j jw jw)

  -- Where a worker has at most one assignment row per standard, unassigning an active row and
  -- assigning the worker to the same standard again takes up that row: it succeeds, with the row's key
  -- and no new row, and the row is as it was before.
  pub assign_again :
      (id : ℕ) (jw : JobWorker) (cw : CompanyWorker) (standard : JobStandard) (w : World) (j : ℕ)
      → AssignedOnce w
      → sql.get id w.job_workers ≡ some jw
      → jw.use_flag ≡ true
      → sql.get jw.company_worker_id w.company_workers ≡ some cw
      → sql.get jw.job_standard_id w.job_standards ≡ some standard
      → ((assign jw.company_worker_id jw.job_standard_id (unassign id w).1).0
          ≡ ok (job_worker_response id jw standard))
        × (sql.get j
              (assign jw.company_worker_id jw.job_standard_id (unassign id w).1).1.job_workers
            ≡ sql.get j w.job_workers)
  unfolding unassign assign
  assign_again id jw cw standard w j u found active hired known =
      let off = record jw { use_flag = false } in
      let t = sql.update id off w.job_workers in
      let at : sql.get id t ≡ some off = ground (arith, sql.get-update id off w.job_workers id) in
      let one_row =
        one_of_AtMostOne (is_assignment jw.company_worker_id jw.job_standard_id) t id off
          (deactivated-AssignedOnce id jw w u found jw.company_worker_id jw.job_standard_id) at
          (ground arith) in
      (
        ground (arith, one_row),
        ground (arith, one_row, sql.get-update id off w.job_workers j, sql.get-update id jw t j),
      )
