-- ===== src/Leaves.antt =====
-- app/services/leave.py: leave requests, their search, and their decision. The response carries the
-- columns and the joined names; `created_at` is left out.
pub mod Decisions
pub mod Endpoints
pub mod Isolation
pub mod Calendar
mod Tests
use Prim.Native.String.{◌++◌ as str_append}
use rooti_server.Base.{
  ℕ, ◌+◌, ◌-◌, Bool, true, false, ◌&&◌, ◌||◌, Option, none, some, List, [], ◌∷◌, map, filter,
  String, ltb, leb, ◌==◌, is_none, same, if◌then◌else◌,
}
use rooti_server.Errors.{
  business, invalid_input, worker_not_found, company_not_found, resource_not_found, no_result_found,
}
use rooti_server.Exec.{Exec, pure, raise, gets, raise_if, or_raise, ◌>>=◌, ◌>>◌}
use rooti_server.Sql.{Sql, asc, desc}
use rooti_server.Sql.Query.{inner_join, first}
use rooti_server.Redis.{Redis}
use rooti_server.Models.{Leave, Company, ChallengedWorker, User}
use rooti_server.Models.Enums.{
  LeaveType, LeaveStatus, pending, approved, LeaveType-discrete, LeaveStatus-discrete,
}
use rooti_server.World.{World, leaves, workers, companies}
use rooti_server.World.Session.{db_get, add, write, remove}
use rooti_server.Tenant.{CompanyScope, assert_company}
use rooti_server.Pagination.{PageParams, Page, paged}
use rooti_server.Text.{truthy, opt_truthy, strip}

pub record LeaveCreateRequest : Type 0 where
  pub worker_id : ℕ
  pub company_id : ℕ
  pub type : LeaveType
  pub start_date : ℕ
  pub end_date : ℕ
  pub reason : Option String
  pub auto_approve : Bool

pub record LeaveResponse : Type 0 where
  pub id : ℕ
  pub leave : Leave
  pub company_name : String
  pub worker_name : String
  pub created_by_name : Option String

-- The filters that a search can set; `none` sets no condition.
pub record LeaveFilter : Type 0 where
  pub keyword : Option String
  pub company_id : Option ℕ
  pub worker_id : Option ℕ
  pub type : Option LeaveType
  pub status : Option LeaveStatus
  pub since : Option ℕ
  pub until : Option ℕ

-- `q.where(test)` if the filter is set
abbrev pub set_and : {A : Type 0} → Option A → (A → Bool) → Bool
set_and none test = true
set_and (some a) test = test a

-- The conditions on the columns of `leaves`.
unfoldable pub column_matches : LeaveFilter → Leave → Bool
column_matches f leave =
    set_and f.company_id (λ c. leave.company_id == c)
    && set_and f.worker_id (λ k. leave.worker_id == k)
    && set_and f.type (λ t. same LeaveType-discrete leave.type t)
    && set_and f.status (λ s. same LeaveStatus-discrete leave.status s)
    && set_and f.since (λ d. leb d leave.end_date)
    && set_and f.until (λ d. leb leave.start_date d)

abbrev pub no_filter : LeaveFilter
no_filter = record {
  keyword = none;
  company_id = none;
  worker_id = none;
  type = none;
  status = none;
  since = none;
  until = none;
}

-- `f"%{keyword.strip()}%"`
unfoldable pub like_pattern : String → String
like_pattern keyword = str_append "%" (str_append (strip keyword) "%")

-- The row of `create`: both end days count.
abbrev pub new_leave : LeaveCreateRequest → ℕ → Leave
new_leave req actor_user_id = record {
  worker_id = req.worker_id;
  company_id = req.company_id;
  type = req.type;
  start_date = req.start_date;
  end_date = req.end_date;
  days = req.end_date - req.start_date + 1;
  status = if req.auto_approve then approved else pending;
  reason = req.reason;
  created_by = some actor_user_id;
}

module _ ⦃sql : Sql⦄ ⦃redis : Redis⦄ where
  -- `_WORKER_NAME`: challenged_workers ⋈ users
  unfoldable pub worker_name : World → ℕ → Option String
  worker_name w worker_id = elim (sql.get worker_id w.workers) [
    | none ↦ none
    | some worker ↦ elim (sql.get worker.user_id w.users) [ none ↦ none | some u ↦ some u.name ]
  ]

  -- `outerjoin(_Creator, _Creator.id == Leave.created_by)`
  unfoldable pub creator_name : World → Option ℕ → Option String
  creator_name w none = none
  creator_name w (some user_id) = elim (sql.get user_id w.users) [
    | none ↦ none
    | some u ↦ some u.name
  ]

  -- `_base_query` with `_row_to_response`, for one row of `leaves`
  unfoldable pub base_row : World → ℕ × Leave → Option LeaveResponse
  base_row w (id, leave) = elim (sql.get leave.company_id w.companies) [
    | none ↦ none
    | some company ↦ elim (worker_name w leave.worker_id) [
      | none ↦ none
      | some name ↦ some (record {
        id = id;
        leave = leave;
        company_name = company.name;
        worker_name = name;
        created_by_name = creator_name w leave.created_by;
      })
    ]
  ]

  -- `_base_query().where(…)`
  unfoldable pub base_query : LeaveFilter → World → List LeaveResponse
  base_query f w = inner_join (base_row w) (sql.select (λ _ leave. column_matches f leave) w.leaves)

  pub keyword_matches : String → LeaveResponse → Bool
  keyword_matches keyword r =
      sql.ilike (like_pattern keyword) r.company_name || elim r.leave.reason [
        | none ↦ false
        | some reason ↦ sql.ilike (like_pattern keyword) reason
      ]

  abbrev pub keyword_filter : Option String → List LeaveResponse → List LeaveResponse
  keyword_filter none rows = rows
  keyword_filter (some keyword) rows =
      if truthy keyword then filter (keyword_matches keyword) rows else rows

  unfoldable pub matching : LeaveFilter → World → List LeaveResponse
  unfolding keyword_matches
  matching f w = keyword_filter f.keyword (base_query f w)

  abbrev pub by_start : LeaveResponse → ℕ
  by_start r = r.leave.start_date

  pub search : LeaveFilter → PageParams → Exec World (Page LeaveResponse)
  search f params = gets (λ w. paged params (sql.order_by desc by_start (matching f w)))

  pub list_by_worker : ℕ → Option ℕ → Option ℕ → CompanyScope → Exec World (List LeaveResponse)
  list_by_worker worker_id since until company_scope = gets (λ w. sql.order_by desc by_start (
      base_query
        (record no_filter {
          worker_id = some worker_id;
          company_id = company_scope;
          since = since;
          until = until;
        })
        w))

  pub list_approved : Option ℕ → Option ℕ → Option ℕ → Exec World (List LeaveResponse)
  list_approved company_id since until = gets (λ w. sql.order_by desc by_start (
      base_query
        (record no_filter {
          status = some approved;
          company_id = company_id;
          since = since;
          until = until;
        })
        w))

  -- `_get_response`: `.one()` raises `NoResultFound` if the join has no row.
  unfoldable pub get_response : ℕ → Exec World LeaveResponse
  get_response leave_id = do
    row ← gets (λ w. elim (sql.get leave_id w.leaves) [
      | none ↦ none
      | some leave ↦ base_row w (leave_id, leave)
    ])
    or_raise row no_result_found

  pub create : LeaveCreateRequest → ℕ → Exec World LeaveResponse
  create req actor_user_id = do
    raise_if (ltb req.end_date req.start_date) (business invalid_input)
    worker ← db_get workers req.worker_id
    raise_if (is_none worker) (business worker_not_found)
    company ← db_get companies req.company_id
    raise_if (is_none company) (business company_not_found)
    leave_id ← add leaves (new_leave req actor_user_id)
    get_response leave_id

  -- `f"{leave.reason} · {comment}" if leave.reason else comment`
  unfoldable pub with_comment : Option String → Option String → Option String
  with_comment reason none = reason
  with_comment none (some comment) = if truthy comment then some comment else none
  with_comment (some reason) (some comment) =
      if truthy comment
      then (if truthy reason
          then some (str_append reason (str_append " · " comment))
          else some comment)
      else some reason

  pub decide : ℕ → LeaveStatus → Option String → CompanyScope → Exec World LeaveResponse
  decide leave_id status comment company_scope = do
    found ← db_get leaves leave_id
    leave ← or_raise found (business resource_not_found)
    assert_company company_scope (some leave.company_id)
    write leaves leave_id
        (record leave { status = status; reason = with_comment leave.reason comment })
    get_response leave_id

  pub delete : ℕ → CompanyScope → Exec World (Unit {0})
  delete leave_id company_scope = do
    found ← db_get leaves leave_id
    elim found [
      | none ↦ pure tt
      | some leave ↦ do assert_company company_scope (some leave.company_id); remove leaves leave_id
    ]
