-- ===== src/Leaves/Tests.antt =====
-- The theorems on leaves for two companies with a leave each.
use rooti_server.Base.{◌≡◌, ◌↔◌, refl, inl, true, none, some, [], ◌∷◌, arith, In}
use rooti_server.Exec.{ok, err}
use rooti_server.Models.Enums.{annual, approved}
use rooti_server.Tenant.{resolve_company_filter}
use rooti_server.Security.{has_role, bare_role}
use rooti_server.Auth.{role_value}
use rooti_server.Pagination.{PageParams, paged, total_pages}
use rooti_server.Deps.{get_company_scope, require_roles, has_any}
use rooti_server.Leaves.{
  LeaveCreateRequest, LeaveResponse, no_filter, base_row, list_approved, search, matching,
  column_matches, base_query, worker_name, creator_name,
}
use rooti_server.Leaves.Endpoints.{delete_leave, handle, list_leaves, search_leaves, list_request}
use rooti_server.Leaves.Isolation.{OthersKept, charger_keeps_other_leaves, charger_sees_own_leaves}
use rooti_server.Leaves.Calendar.{SharesDay, list_approved_exact}
use rooti_server.Samples.{sql, redis, settings, office, park, leave_at}

park_scope : get_company_scope park office ≡ (ok (some 0), office)
unfolding get_company_scope require_roles has_any role_value has_role bare_role
park_scope = refl

charger_keeps_other_leaves_example : OthersKept 0 office (handle (delete_leave 1) park office).1
charger_keeps_other_leaves_example =
    charger_keeps_other_leaves (delete_leave 1) park 0 office park_scope

abbrev first_page : PageParams
first_page = record { page = 0; size = 20 }

-- The leave of the first company, as an answer shows it.
abbrev shown : LeaveResponse
shown = record {
  id = 0;
  leave = leave_at 0;
  company_name = "acme";
  worker_name = "jin";
  created_by_name = some "park";
}

park_list :
    list_request (search_leaves no_filter first_page) park office ≡ (ok (shown ∷ []), office)
unfolding list_request list_leaves get_company_scope require_roles has_any role_value has_role
    bare_role resolve_company_filter search matching column_matches base_query base_row worker_name
    creator_name paged total_pages
park_list = refl

charger_sees_own_leaves_example :
    (sql.get 0 office.leaves ≡ some (leave_at 0)) × (shown.leave.company_id ≡ 0)
charger_sees_own_leaves_example =
    charger_sees_own_leaves (search_leaves no_filter first_page) park 0 office office (shown ∷ [])
      park_scope park_list shown (inl refl)

shown_row : base_row office (0, leave_at 0) ≡ some shown
unfolding base_row worker_name creator_name
shown_row = refl

list_approved_exact_example :
    (elim (list_approved (some 0) (some 12) (some 20) office).0 [
      | ok rows ↦ In shown rows
      | err e ↦ ⊥
    ])
    ↔ (((leave_at 0).status ≡ approved)
        × ((leave_at 0).company_id ≡ 0)
        × SharesDay (leave_at 0) 12 20)
list_approved_exact_example =
    list_approved_exact 0 12 20 0 (leave_at 0) shown office refl shown_row (omega arith)
      (omega arith)

abbrev request : LeaveCreateRequest
request = record {
  worker_id = 0;
  company_id = 1;
  type = annual;
  start_date = 30;
  end_date = 31;
  reason = none;
  auto_approve = true;
}
