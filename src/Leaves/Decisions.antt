-- ===== src/Leaves/Decisions.antt =====
-- What a change of a leave does to the table.
use rooti_server.Base.{String, ℕ, ◌≡◌, ◌≢◌, ◌⊎◌, Option, none, some, arith, ◌==◌, if◌then◌else◌}
use rooti_server.Errors.{business, auth_forbidden}
use rooti_server.Exec.{err}
use rooti_server.Sql.{Sql}
use rooti_server.Redis.{Redis}
use rooti_server.Models.{Leave}
use rooti_server.Models.Enums.{LeaveStatus}
use rooti_server.World.{World}
use rooti_server.Tenant.{CompanyScope, assert_company}
use rooti_server.Leaves.{get_response, decide, with_comment}

module _ ⦃sql : Sql⦄ ⦃redis : Redis⦄ where
  pub get_response_same : (id : ℕ) (w : World) → (get_response id w).1 ≡ w
  unfolding get_response
  get_response_same id w = ground arith

  -- A decision by the charger of another company is refused, and nothing is written.
  pub decide_forbidden :
      (leave_id : ℕ) (status : LeaveStatus) (comment : Option String) (company : ℕ) (w : World)
      (leave : Leave)
      → sql.get leave_id w.leaves ≡ some leave
      → leave.company_id ≢ company
      → decide leave_id status comment (some company) w ≡ (err (business auth_forbidden), w)
  unfolding decide assert_company
  decide_forbidden leave_id status comment company w leave found other = ground arith

  -- An allowed decision sets the status, appends the comment and leaves all else alone.
  pub get-decide :
      (leave_id : ℕ) (status : LeaveStatus) (comment : Option String) (scope : CompanyScope)
      (w : World) (leave : Leave) (j : ℕ)
      → sql.get leave_id w.leaves ≡ some leave
      → (scope ≡ none) ⊎ (scope ≡ some leave.company_id)
      → sql.get j (decide leave_id status comment scope w).1.leaves ≡ (
          if leave_id == j
          then some (record leave { status = status; reason = with_comment leave.reason comment })
          else sql.get j w.leaves)
  unfolding decide assert_company
  get-decide leave_id status comment scope w leave j found allowed =
      let row = record leave { status = status; reason = with_comment leave.reason comment } in
      ground (
        arith,
        get_response_same leave_id (record w { leaves = sql.update leave_id row w.leaves }),
        sql.get-update leave_id row w.leaves j,
      )
