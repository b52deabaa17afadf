-- ===== src/Leaves/Isolation.antt =====
-- A charger's requests reach the leaves of one company only.
use rooti_server.Base.{
  ℕ, ◌≡◌, ◌≢◌, ◌↔◌, inl, inr, true, Option, none, some, List, arith, ◌==◌, String, In, In-filter,
  In-take, In-drop, drop, Bool-cases, Option-cases,
}
use rooti_server.Exec.{ok, Result-cases}
use rooti_server.Sql.{Sql, desc}
use rooti_server.Sql.Query.{In-inner_join}
use rooti_server.Redis.{Redis}
use rooti_server.Models.{Leave}
use rooti_server.Models.Enums.{LeaveStatus, approved}
use rooti_server.World.{World}
use rooti_server.Text.{truthy}
use rooti_server.Tenant.{assert_company, resolve_company_filter}
use rooti_server.Security.{PrincipalDetails}
use rooti_server.Pagination.{PageParams, Page, paged, offset, limit}
use rooti_server.Deps.{get_company_scope}
use rooti_server.Leaves.{
  LeaveCreateRequest, LeaveResponse, LeaveFilter, by_start, new_leave, column_matches, base_row,
  base_query, keyword_filter, keyword_matches, matching, search, list_approved, list_by_worker,
  no_filter, create, decide, delete, with_comment,
}
use rooti_server.Leaves.Decisions.{get_response_same}
use rooti_server.Leaves.Endpoints.{
  LeaveCall, create_leave, decide_leave, delete_leave, scoped_call, handle, list_leaves,
  list_approved_leaves, list_worker_leaves, LeaveQuery, search_leaves, approved_leaves,
  worker_leaves, list_request,
}

module _ ⦃sql : Sql⦄ ⦃redis : Redis⦄ where
  -- The leaves of the other companies are the same in two worlds.
  abbrev pub OthersKept : ℕ → World → World → Type 0
  OthersKept company w w' =
      (j : ℕ) (leave : Leave)
      → leave.company_id ≢ company
      → (sql.get j w'.leaves ≡ some leave) ↔ (sql.get j w.leaves ≡ some leave)

  delete-OthersKept :
      (company leave_id : ℕ) (w : World) → OthersKept company w (delete leave_id (some company) w).1
  unfolding delete assert_company
  delete-OthersKept company leave_id w j leave other =
      elim (Option-cases (sql.get leave_id w.leaves)) [
        | inl e ↦ (ground arith, ground arith)
        | inr (found, e) ↦
            let at = sql.get-delete leave_id w.leaves j in (ground (arith, at), ground (arith, at))
      ]

  decide-OthersKept :
      (company leave_id : ℕ) (status : LeaveStatus) (comment : Option String) (w : World)
      → OthersKept company w (decide leave_id status comment (some company) w).1
  unfolding decide assert_company
  decide-OthersKept company leave_id status comment w j leave other =
      elim (Option-cases (sql.get leave_id w.leaves)) [
        | inl e ↦ (ground arith, ground arith)
        | inr (found, e) ↦
            let row = record found {
              status = status;
              reason = with_comment found.reason comment;
            } in
            let at = sql.get-update leave_id row w.leaves j in
            let same =
              get_response_same leave_id (record w { leaves = sql.update leave_id row w.leaves }) in
            (ground (arith, at, same), ground (arith, at, same))
      ]

  create-OthersKept :
      (req : LeaveCreateRequest) (actor : ℕ) (w : World)
      → OthersKept req.company_id w (create req actor w).1
  unfolding create
  create-OthersKept req actor w j leave other =
      elim (Option-cases (sql.insert (new_leave req actor) w.leaves)) [
        | inl refused ↦ (ground arith, ground arith)
        | inr (row, e) ↦
            let at = sql.get-insert (new_leave req actor) w.leaves row.0 row.1 j e in
            let fresh = sql.insert_fresh (new_leave req actor) w.leaves row.0 row.1 e in
            let same = get_response_same row.0 (record w { leaves = row.1 }) in
            (ground (arith, at, fresh, same), ground (arith, at, fresh, same))
      ]

  scoped_call-OthersKept :
      (call : LeaveCall) (me : PrincipalDetails) (company : ℕ) (w : World)
      → OthersKept company w (scoped_call call me (some company) w).1
  unfolding scoped_call assert_company
  scoped_call-OthersKept (create_leave req) me company w j leave other =
      elim (Bool-cases (req.company_id == company)) [
        | inl own ↦
            let kept = create-OthersKept req me.user_id w j leave in
            (ground (arith, kept), ground (arith, kept))
        | inr foreign ↦ (ground arith, ground arith)
      ]
  scoped_call-OthersKept (decide_leave leave_id status comment) me company w j leave other =
      let kept = decide-OthersKept company leave_id status comment w j leave other in
      (ground (arith, kept), ground (arith, kept))
  scoped_call-OthersKept (delete_leave leave_id) me company w j leave other =
      delete-OthersKept company leave_id w j leave other

  -- Tenant isolation of writes: whatever a charger of a company asks for, the leaves of every other
  -- company are the same after the request, none added, changed or removed.
  pub charger_keeps_other_leaves :
      (call : LeaveCall) (me : PrincipalDetails) (company : ℕ) (w : World)
      → get_company_scope me w ≡ (ok (some company), w)
      → OthersKept company w (handle call me w).1
  unfolding handle
  charger_keeps_other_leaves call me company w scope j leave other =
      let kept = scoped_call-OthersKept call me company w j leave other in
      (ground (arith, scope, kept), ground (arith, scope, kept))

  pub base_row_leave :
      (w : World) (row : ℕ × Leave) (r : LeaveResponse)
      → base_row w row ≡ some r
      → (r.leave ≡ row.1) × (r.id ≡ row.0)
  unfolding base_row
  base_row_leave w (id, leave) r h = ground arith

  -- The responses of a query are rows of the table that pass its conditions.
  pub base_query_sound :
      (f : LeaveFilter) (w : World) (r : LeaveResponse)
      → In r (base_query f w)
      → (sql.get r.id w.leaves ≡ some r.leave) × (column_matches f r.leave ≡ true)
  unfolding base_query
  base_query_sound f w r m =
      let p = λ (k : ℕ) (leave : Leave). column_matches f leave in
      let (row, selected, joined) = In-inner_join (base_row w) (sql.select p w.leaves) r m in
      let same = base_row_leave w row r joined in
      let found = sql.select_sound p w.leaves row.0 row.1 selected in
      (ground (arith, same, found), ground (arith, same, found))

  matching_sound :
      (f : LeaveFilter) (w : World) (r : LeaveResponse)
      → In r (matching f w)
      → In r (base_query f w)
  unfolding matching
  matching_sound f w r m = go f.keyword m
    where
      go : (k : Option String) → In r (keyword_filter k (base_query f w)) → In r (base_query f w)
      go none h = h
      go (some k) h = elim (Bool-cases (truthy k)) [
        | inl e ↦ (In-filter (keyword_matches k) (base_query f w) r (rw e at h)).0
        | inr e ↦ rw e at h
      ]

  matches_company :
      (f : LeaveFilter) (company : ℕ) (leave : Leave)
      → column_matches (record f { company_id = some company }) leave ≡ true
      → leave.company_id ≡ company
  unfolding column_matches
  matches_company f company leave h = ground arith

  -- The rows of a query with the company filter set are stored rows of that company.
  ordered_of_company :
      (f : LeaveFilter) (company : ℕ) (w : World) (r : LeaveResponse)
      → In r (sql.order_by desc by_start (base_query (record f { company_id = some company }) w))
      → (sql.get r.id w.leaves ≡ some r.leave) × (r.leave.company_id ≡ company)
  ordered_of_company f company w r m =
      let own = record f { company_id = some company } in
      let found = base_query_sound own w r (sql.In-order_by desc by_start (base_query own w) r m) in
      (found.0, matches_company f company r.leave found.1)

  list_leaves_answer :
      (f : LeaveFilter) (page : PageParams) (me : PrincipalDetails) (company : ℕ) (w w' : World)
      (answer : Page LeaveResponse)
      → get_company_scope me w ≡ (ok (some company), w)
      → list_leaves f page me w ≡ (ok answer, w')
      → answer
        ≡ paged page
            (sql.order_by desc by_start (matching (record f { company_id = some company }) w))
  unfolding list_leaves resolve_company_filter search
  list_leaves_answer f page me company w w' answer scope h = ground arith

  search_of_company :
      (f : LeaveFilter) (page : PageParams) (me : PrincipalDetails) (company : ℕ) (w w' : World)
      (answer : Page LeaveResponse)
      → get_company_scope me w ≡ (ok (some company), w)
      → list_leaves f page me w ≡ (ok answer, w')
      → (r : LeaveResponse) → In r answer.content
      → (sql.get r.id w.leaves ≡ some r.leave) × (r.leave.company_id ≡ company)
  unfolding paged
  search_of_company f page me company w w' answer scope h r m =
      let own = record f { company_id = some company } in
      let rows = sql.order_by desc by_start (matching own w) in
      let shown = list_leaves_answer f page me company w w' answer scope h in
      let in_page : In r (paged page rows).content = rw shown at m in
      let in_rows =
        In-drop (offset page) r rows (In-take (limit page) r (drop (offset page) rows) in_page) in
      let in_query =
        matching_sound own w r (sql.In-order_by desc by_start (matching own w) r in_rows) in
      let found = base_query_sound own w r in_query in
      (found.0, matches_company f company r.leave found.1)

  approved_answer :
      (requested since until : Option ℕ) (me : PrincipalDetails) (company : ℕ) (w w' : World)
      (rows : List LeaveResponse)
      → get_company_scope me w ≡ (ok (some company), w)
      → list_approved_leaves requested since until me w ≡ (ok rows, w')
      → list_approved (some company) since until w ≡ (ok rows, w')
  unfolding list_approved_leaves resolve_company_filter
  approved_answer requested since until me company w w' rows scope h = ground arith

  worker_answer :
      (worker_id : ℕ) (since until : Option ℕ) (me : PrincipalDetails) (company : ℕ) (w w' : World)
      (rows : List LeaveResponse)
      → get_company_scope me w ≡ (ok (some company), w)
      → list_worker_leaves worker_id since until me w ≡ (ok rows, w')
      → list_by_worker worker_id since until (some company) w ≡ (ok rows, w')
  unfolding list_worker_leaves
  worker_answer worker_id since until me company w w' rows scope h = ground arith

  -- Tenant isolation of reads: whatever a charger of a company lists, by a search, as the calendar of
  -- approved leaves or for one worker, every leave in the answer is a row of the table that belongs to
  -- that company.
  pub charger_sees_own_leaves :
      (q : LeaveQuery) (me : PrincipalDetails) (company : ℕ) (w w' : World)
      (rows : List LeaveResponse)
      → get_company_scope me w ≡ (ok (some company), w)
      → list_request q me w ≡ (ok rows, w')
      → (r : LeaveResponse) → In r rows
      → (sql.get r.id w.leaves ≡ some r.leave) × (r.leave.company_id ≡ company)
  unfolding list_request list_approved list_by_worker
  charger_sees_own_leaves (search_leaves f page) me company w w' rows scope h r m =
      elim (Result-cases (list_leaves f page me w).0) [
        | inl (answer, e) ↦
            search_of_company f page me company w (list_leaves f page me w).1 answer scope
              (ground arith) r (let shown : rows ≡ answer.content = ground arith in rw shown at m)
        | inr (x, e) ↦ absurd (ground arith)
      ]
  charger_sees_own_leaves (approved_leaves requested since until) me company w w' rows scope h r m =
      let f = record no_filter { status = some approved; since = since; until = until } in
      let same = approved_answer requested since until me company w w' rows scope h in
      let shown : rows
          ≡ sql.order_by desc by_start (base_query (record f { company_id = some company }) w) =
        ground arith in
      ordered_of_company f company w r (rw shown at m)
  charger_sees_own_leaves (worker_leaves id since until) me company w w' rows scope h r m =
      let f = record no_filter { worker_id = some id; since = since; until = until } in
      let same = worker_answer id since until me company w w' rows scope h in
      let shown : rows
          ≡ sql.order_by desc by_start (base_query (record f { company_id = some company }) w) =
        ground arith in
      ordered_of_company f company w r (rw shown at m)
