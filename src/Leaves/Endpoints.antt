-- ===== src/Leaves/Endpoints.antt =====
-- app/api/v1/leaves.py: the endpoints that change leaves and those that list them, with the scope of
-- the user resolved first.
use rooti_server.Base.{ℕ, Option, some, List, String}
use rooti_server.Exec.{Exec, pure, ◌>>=◌, ◌>>◌}
use rooti_server.Sql.{Sql}
use rooti_server.Redis.{Redis}
use rooti_server.Models.Enums.{LeaveStatus}
use rooti_server.World.{World}
use rooti_server.Pagination.{PageParams, Page}
use rooti_server.Tenant.{CompanyScope, resolve_company_filter, assert_company}
use rooti_server.Security.{PrincipalDetails}
use rooti_server.Deps.{get_company_scope}
use rooti_server.Leaves.{
  LeaveCreateRequest, LeaveResponse, LeaveFilter, search, list_approved, list_by_worker, create,
  decide, delete,
}

-- The requests that change leaves.
pub data LeaveCall : Type 0 where
  create_leave : LeaveCreateRequest → LeaveCall
  decide_leave : ℕ → LeaveStatus → Option String → LeaveCall
  delete_leave : ℕ → LeaveCall

-- The requests that list leaves.
pub data LeaveQuery : Type 0 where
  search_leaves : LeaveFilter → PageParams → LeaveQuery
  approved_leaves : Option ℕ → Option ℕ → Option ℕ → LeaveQuery
  worker_leaves : ℕ → Option ℕ → Option ℕ → LeaveQuery

module _ ⦃sql : Sql⦄ ⦃redis : Redis⦄ where
  -- An endpoint behind the scope of its user; the response body is left out.
  unfoldable pub scoped_call : LeaveCall → PrincipalDetails → CompanyScope → Exec World (Unit {0})
  scoped_call (create_leave req) me scope = do
    assert_company scope (some req.company_id)
    create req me.user_id
    pure tt
  scoped_call (decide_leave leave_id status comment) me scope = do
    decide leave_id status comment scope
    pure tt
  scoped_call (delete_leave leave_id) me scope = delete leave_id scope

  unfoldable pub handle : LeaveCall → PrincipalDetails → Exec World (Unit {0})
  handle call me = do scope ← get_company_scope me; scoped_call call me scope

  unfoldable pub list_leaves :
      LeaveFilter → PageParams → PrincipalDetails → Exec World (Page LeaveResponse)
  list_leaves filter page me = do
    scope ← get_company_scope me
    company_id ← resolve_company_filter scope filter.company_id
    search (record filter { company_id = company_id }) page

  unfoldable pub list_approved_leaves :
      Option ℕ → Option ℕ → Option ℕ → PrincipalDetails → Exec World (List LeaveResponse)
  list_approved_leaves requested since until me = do
    scope ← get_company_scope me
    company_id ← resolve_company_filter scope requested
    list_approved company_id since until

  unfoldable pub list_worker_leaves :
      ℕ → Option ℕ → Option ℕ → PrincipalDetails → Exec World (List LeaveResponse)
  list_worker_leaves worker_id since until me = do
    scope ← get_company_scope me
    list_by_worker worker_id since until scope

  -- The leaves in the answer of a request.
  unfoldable pub list_request : LeaveQuery → PrincipalDetails → Exec World (List LeaveResponse)
  list_request (search_leaves f page) me = do answer ← list_leaves f page me; pure answer.content
  list_request (approved_leaves requested since until) me =
      list_approved_leaves requested since until me
  list_request (worker_leaves worker_id since until) me =
      list_worker_leaves worker_id since until me
