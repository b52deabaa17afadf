-- ===== src/JobStandards.antt =====
-- `JobStandardService` of app/services/job.py: job standards with their processes. A flush writes
-- new and changed rows before it deletes, as SQLAlchemy's unit of work does.
pub mod Requests
pub mod Sync
pub mod Endpoints
mod Tests
use rooti_server.Base.{
  ℕ, Bool, true, false, not, ◌&&◌, ◌||◌, Option, none, some, List, [], ◌∷◌, ◌++◌, filter, map,
  String, ◌==◌, is_none, if◌then◌else◌,
}
use rooti_server.Errors.{
  business, integrity_error, company_not_found, job_standard_not_found, job_process_not_found,
  external_error,
}
use rooti_server.Exec.{Exec, pure, raise, gets, modify, raise_if, or_raise, ◌>>=◌, ◌>>◌}
use rooti_server.Sql.{Sql, asc, desc}
use rooti_server.Sql.Query.{inner_join}
use rooti_server.Redis.{Redis}
use rooti_server.Models.{JobStandard, JobProcess}
use rooti_server.World.{World, companies, job_standards, job_processes}
use rooti_server.World.Session.{db_get, add, write}
use rooti_server.Pagination.{PageParams, Page, paged}
use rooti_server.Text.{truthy}
use rooti_server.Leaves.{set_and, like_pattern}
use rooti_server.Cache.{Json, Model, get_model, set_model, evict}
use rooti_server.JobStandards.Requests.{
  ProcessUpsertRequest, JobStandardCreateRequest, JobStandardUpdateRequest, JobStandardResponse,
  or_default, new_standard, changed_standard, new_process, requested, has_id, replace_row,
  is_requested,
}

module _ ⦃sql : Sql⦄ ⦃redis : Redis⦄ where
  unfoldable pub get_or_throw : ℕ → Exec World JobStandard
  get_or_throw standard_id = do
    found ← db_get job_standards standard_id
    or_raise found (business job_standard_not_found)

  unfoldable pub company_name : ℕ → Exec World (Option String)
  company_name company_id =
      gets (λ w. elim (sql.get company_id w.companies) [ none ↦ none | some c ↦ some c.name ])

  abbrev pub by_sequence : ℕ × JobProcess → ℕ
  by_sequence (id, p) = p.sequence

  abbrev pub of_standard : ℕ → ℕ → JobProcess → Bool
  of_standard standard_id id p = p.job_standard_id == standard_id

  -- `s.processes`, in the order of the relationship
  unfoldable pub processes_of : World → ℕ → List (ℕ × JobProcess)
  processes_of w standard_id =
      sql.order_by asc by_sequence (sql.select (of_standard standard_id) w.job_processes)

  unfoldable pub evict_standard : Bool → ℕ → Exec World (Unit {0})
  evict_standard cached standard_id = if cached then evict "job_standard" standard_id else pure tt

  abbrev pub standard_row : World → ℕ × JobStandard → Option JobStandardResponse
  standard_row w (id, s) = elim (sql.get s.company_id w.companies) [
    | none ↦ none
    | some c ↦ some (record { id = id; standard = s; company_name = some c.name; processes = [] })
  ]

  keyword_filter : Option String → List JobStandardResponse → List JobStandardResponse
  keyword_filter none rows = rows
  keyword_filter (some keyword) rows =
      if truthy keyword
      then filter (λ (r : JobStandardResponse). sql.ilike (like_pattern keyword) r.standard.name)
          rows
      else rows

  abbrev by_id : JobStandardResponse → ℕ
  by_id r = r.id

  pub search : Option ℕ → Option String → PageParams → Exec World (Page JobStandardResponse)
  unfolding keyword_filter
  search company_id keyword params = gets (λ w. paged params (
      sql.order_by desc by_id (
        keyword_filter keyword (
          inner_join (standard_row w)
            (sql.select (λ _ s. set_and company_id (λ c. s.company_id == c)) w.job_standards)))))

  unfoldable pub add_processes : ℕ → List ProcessUpsertRequest → Exec World (List (ℕ × JobProcess))
  add_processes standard_id [] = pure []
  add_processes standard_id (p ∷ ps) = do
    id ← add job_processes (new_process standard_id p)
    rows ← add_processes standard_id ps
    pure ((id, new_process standard_id p) ∷ rows)

  -- `s.processes` of a row whose relationship was not loaded: the lazy load needs a query, which an
  -- async session refuses on attribute access.
  unfoldable pub lazy_processes : Exec World (List (ℕ × JobProcess))
  lazy_processes = raise (external_error "MissingGreenlet")

  -- `s.processes` after the flush of a new row: only what `append` filled is loaded.
  unfoldable pub loaded_or_lazy : List (ℕ × JobProcess) → Exec World (List (ℕ × JobProcess))
  loaded_or_lazy [] = lazy_processes
  loaded_or_lazy (r ∷ rows) = pure (r ∷ rows)

  unfoldable pub create : Bool → JobStandardCreateRequest → Exec World JobStandardResponse
  create cached req = do
    company ← db_get companies req.company_id
    raise_if (is_none company) (business company_not_found)
    id ← add job_standards (new_standard req)
    added ← add_processes id req.processes
    evict_standard cached id
    name ← company_name req.company_id
    processes ← loaded_or_lazy added
    pure (record {
      id = id;
      standard = new_standard req;
      company_name = name;
      processes = processes;
    })

  unfoldable pub update : Bool → ℕ → JobStandardUpdateRequest → Exec World JobStandardResponse
  update cached standard_id req = do
    s ← get_or_throw standard_id
    write job_standards standard_id (changed_standard req s)
    evict_standard cached standard_id
    name ← company_name s.company_id
    processes ← lazy_processes
    pure (record {
      id = standard_id;
      standard = changed_standard req s;
      company_name = name;
      processes = processes;
    })

  pub deactivate : Bool → ℕ → Exec World (Unit {0})
  deactivate cached standard_id = do
    s ← get_or_throw standard_id
    write job_standards standard_id (record s { use_flag = false })
    evict_standard cached standard_id

  -- One round of the loop of `sync_processes`: `kept` are the rows that were there and stay, `rows`
  -- the list of the relationship.
  unfoldable pub sync_one :
      ℕ
      → List (ℕ × JobProcess)
      → ProcessUpsertRequest
      → List (ℕ × JobProcess)
      → Exec World (List (ℕ × JobProcess))
  sync_one standard_id kept p rows = elim p.id [
    | none ↦ do
      id ← add job_processes (new_process standard_id p)
      pure (rows ++ (id, new_process standard_id p) ∷ [])
    | some id ↦ do
      raise_if (not (has_id id kept)) (business job_process_not_found)
      write job_processes id (new_process standard_id p)
      pure (replace_row id (new_process standard_id p) rows)
  ]

  unfoldable pub sync_all :
      ℕ
      → List (ℕ × JobProcess)
      → List ProcessUpsertRequest
      → List (ℕ × JobProcess)
      → Exec World (List (ℕ × JobProcess))
  sync_all standard_id kept [] rows = pure rows
  sync_all standard_id kept (p ∷ ps) rows = do
    next ← sync_one standard_id kept p rows
    sync_all standard_id kept ps next

  unfoldable pub delete_rows : List (ℕ × JobProcess) → sql.Table JobProcess → sql.Table JobProcess
  delete_rows [] t = t
  delete_rows ((k, p) ∷ rows) t = sql.delete k (delete_rows rows t)

  -- The rows that a request leaves out.
  abbrev pub left_out : List ProcessUpsertRequest → ℕ × JobProcess → Bool
  left_out incoming row = not (is_requested incoming row)

  unfoldable pub sync_rows : ℕ → List ProcessUpsertRequest → Exec World (List (ℕ × JobProcess))
  sync_rows standard_id incoming = do
    before ← gets (λ w. w)
    existing ← gets (λ w. processes_of w standard_id)
    let kept : List (ℕ × JobProcess) = filter (is_requested incoming) existing
    rows ← sync_all standard_id kept incoming kept
    after ← gets (λ w. delete_rows (filter (left_out incoming) existing) w.job_processes)
    raise_if (not (sql.accepts before after)) integrity_error
    modify (λ w. record w { job_processes = after })
    pure rows

  unfoldable pub sync_processes : ℕ → List ProcessUpsertRequest → Exec World JobStandardResponse
  sync_processes standard_id incoming = do
    s ← get_or_throw standard_id
    rows ← sync_rows standard_id incoming
    name ← company_name s.company_id
    pure (record { id = standard_id; standard = s; company_name = name; processes = rows })

module _ ⦃sql : Sql⦄ ⦃redis : Redis⦄ ⦃json : Json⦄ ⦃model : Model JobStandardResponse⦄ where
  load : Bool → ℕ → Exec World JobStandardResponse
  load cached standard_id = do
    s ← get_or_throw standard_id
    name ← company_name s.company_id
    processes ← gets (λ w. processes_of w standard_id)
    let resp : JobStandardResponse = record {
      id = standard_id;
      standard = s;
      company_name = name;
      processes = processes;
    }
    if cached then set_model resp "job_standard" standard_id 600 else pure tt
    pure resp

  pub get : Bool → ℕ → Exec World JobStandardResponse
  unfolding load
  get cached standard_id = do
    hit ← if cached then get_model "job_standard" standard_id else pure none
    elim hit [ none ↦ load cached standard_id | some resp ↦ pure resp ]
