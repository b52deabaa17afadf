-- ===== src/Pagination.antt =====
-- app/core/pagination.py: the page parameters of a request and the page of a result.
pub mod Laws
pub mod Order
mod Tests
use Prim.Native.Nat.{max}
use rooti_server.Base.{ℕ, ◌+◌, ◌-◌, ◌*◌, ◌/◌, ◌≤◌, Bool, List, length, ltb, ◌==◌, if◌then◌else◌}
use rooti_server.Sql.Query.{window}

abbrev pub max_page_size : ℕ
max_page_size = 100

pub record PageParams : Type 0 where
  pub page : ℕ
  pub size : ℕ

-- The bounds that `Field(ge=…, le=…)` and `Query(ge=…, le=…)` check.
pub record IsChecked (params : PageParams) : Type 0 where
  pub at_least : 1 ≤ params.size
  pub at_most : params.size ≤ max_page_size

unfoldable pub offset : PageParams → ℕ
offset params = params.page * params.size

unfoldable pub limit : PageParams → ℕ
limit params = params.size

pub record Page (T : Type 0) : Type 0 where
  pub content : List T
  pub page : ℕ
  pub size : ℕ
  pub total_elements : ℕ
  pub total_pages : ℕ
  pub has_next : Bool
  pub has_previous : Bool

-- `math.ceil(total / size)`
unfoldable pub ceil_div : ℕ → ℕ → ℕ
ceil_div total size = (total + size - 1) / size

unfoldable pub total_pages : ℕ → ℕ → ℕ
unfolding ceil_div
total_pages total size = if size == 0 then 0 else max 1 (ceil_div total size)

unfoldable pub build : {T : Type 0} → List T → PageParams → ℕ → Page T
build content params total = record {
  content = content;
  page = params.page;
  size = params.size;
  total_elements = total;
  total_pages = total_pages total params.size;
  has_next = ltb (params.page + 1) (total_pages total params.size);
  has_previous = ltb 0 params.page;
}

-- `Page.build` over `.offset(params.offset).limit(params.limit)` of all matching rows, as each
-- `search` of the services composes them. `rows` is what the query of this page arranges; the query of
-- another page may arrange rows of equal order keys in another way.
unfoldable pub paged : {T : Type 0} → PageParams → List T → Page T
unfolding build offset limit
paged params rows = build (window (offset params) (limit params) rows) params (length rows)
