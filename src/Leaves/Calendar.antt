-- ===== src/Leaves/Calendar.antt =====
-- The calendar overlay, and the leave that a request creates.
use Prim.Native.Nat.{max}
use rooti_server.Base.{
  ℕ, ◌+◌, ◌≤◌, ◌≡◌, ◌↔◌, true, Option, some, arith, ◌==◌, same_refl, same_eq, if◌then◌else◌, In,
}
use rooti_server.Exec.{ok, err}
use rooti_server.Sql.{Sql, desc}
use rooti_server.Sql.Query.{In-inner_join-In}
use rooti_server.Redis.{Redis}
use rooti_server.Models.{Leave, ChallengedWorker, Company}
use rooti_server.Models.Enums.{LeaveStatus-discrete, approved}
use rooti_server.World.{World}
use rooti_server.Leaves.{
  LeaveCreateRequest, LeaveResponse, LeaveFilter, no_filter, by_start, new_leave, column_matches,
  base_row, base_query, list_approved, create,
}
use rooti_server.Leaves.Decisions.{get_response_same}
use rooti_server.Leaves.Isolation.{base_query_sound, base_row_leave}

-- Two spans of days share a day.
abbrev pub SharesDay : Leave → ℕ → ℕ → Type 0
SharesDay leave since until =
    (day : ℕ) × (leave.start_date ≤ day) × (day ≤ leave.end_date) × (since ≤ day) × (day ≤ until)

abbrev approved_filter : Option ℕ → ℕ → ℕ → LeaveFilter
approved_filter company since until = record no_filter {
  status = some approved;
  company_id = company;
  since = some since;
  until = some until;
}

filter_days :
    (company since until : ℕ) (leave : Leave)
    → leave.start_date ≤ leave.end_date
    → since ≤ until
    → column_matches (approved_filter (some company) since until) leave ≡ true
    → (leave.status ≡ approved) × (leave.company_id ≡ company) × SharesDay leave since until
unfolding column_matches
filter_days company since until leave ordered window h = (
  ground (arith, same_eq LeaveStatus-discrete leave.status approved),
  ground arith,
  (max leave.start_date since, ground arith, ground arith, ground arith, ground arith),
)

days_filter :
    (company since until : ℕ) (leave : Leave)
    → leave.status ≡ approved
    → leave.company_id ≡ company
    → SharesDay leave since until
    → column_matches (approved_filter (some company) since until) leave ≡ true
unfolding column_matches
days_filter company since until leave s c (day, a, b, d, e) =
    ground (arith, same_refl LeaveStatus-discrete approved)

module _ ⦃sql : Sql⦄ ⦃redis : Redis⦄ where
  -- The calendar of a company over a window of days shows a leave whose company, worker and user
  -- exist exactly when the leave is approved, belongs to the company and shares a day with the window.
  pub list_approved_exact :
      (company since until id : ℕ) (leave : Leave) (r : LeaveResponse) (w : World)
      → sql.get id w.leaves ≡ some leave
      → base_row w (id, leave) ≡ some r
      → leave.start_date ≤ leave.end_date
      → since ≤ until
      → (elim (list_approved (some company) (some since) (some until) w).0 [
        | ok shown ↦ In r shown
        | err e ↦ ⊥
      ])
        ↔ ((leave.status ≡ approved) × (leave.company_id ≡ company) × SharesDay leave since until)
  unfolding list_approved base_query
  list_approved_exact company since until id leave r w found joined ordered window =
      let f = approved_filter (some company) since until in
      let p = λ (k : ℕ) (x : Leave). column_matches f x in
      let row = base_row_leave w (id, leave) r joined in
      (
        λ m.
            let shown =
              base_query_sound f w r (sql.In-order_by desc by_start (base_query f w) r m) in
            filter_days company since until leave ordered window (rw row.0 at shown.1),
        λ (s, c, day). sql.In_order_by_In desc by_start (base_query f w) r (
            In-inner_join-In (base_row w) (sql.select p w.leaves) (id, leave) r
              (sql.select_complete p w.leaves id leave found
                (days_filter company since until leave s c day))
              joined),
      )

  -- A request with its days in order, for a worker and a company that exist, stores one new leave that
  -- the database accepts: it counts both end days, is approved at once only on demand, and no other
  -- leave changes.
  pub get-create :
      (req : LeaveCreateRequest) (actor : ℕ) (w : World) (worker : ChallengedWorker)
      (company : Company) (row : ℕ × sql.Table Leave) (j : ℕ)
      → req.start_date ≤ req.end_date
      → sql.get req.worker_id w.workers ≡ some worker
      → sql.get req.company_id w.companies ≡ some company
      → sql.insert (new_leave req actor) w.leaves ≡ some row
      → (sql.get j (create req actor w).1.leaves
          ≡ (if row.0 == j then some (new_leave req actor) else sql.get j w.leaves))
        × ((new_leave req actor).days + req.start_date ≡ req.end_date + 1)
  unfolding create
  get-create req actor w worker company row j ordered worker_there company_there accepted = (
    ground (
      arith,
      sql.get-insert (new_leave req actor) w.leaves row.0 row.1 j accepted,
      get_response_same row.0 (record w { leaves = row.1 }),
    ),
    omega arith,
  )
