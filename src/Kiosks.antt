-- ===== src/Kiosks.antt =====
-- app/services/kiosk.py and api/v1/kiosks.py: the kiosks bound to a company. The response carries the
-- row, its key and the name of the company.
pub mod Isolation
pub mod Binding
mod Tests
use rooti_server.Base.{
  ℕ, Bool, true, false, not, ◌&&◌, ◌||◌, Option, none, some, List, [], ◌∷◌, filter, String, str_eq,
  ◌==◌, is_none, if◌then◌else◌,
}
use rooti_server.Errors.{business, company_not_found, conflict, resource_not_found}
use rooti_server.Exec.{Exec, pure, raise, gets, raise_if, or_raise, ◌>>=◌, ◌>>◌}
use rooti_server.Sql.{Sql, asc}
use rooti_server.Sql.Query.{inner_join}
use rooti_server.Redis.{Redis}
use rooti_server.Models.{CompanyKiosk, Company}
use rooti_server.World.{World, kiosks, companies}
use rooti_server.World.Session.{db_get, add, write, remove, query_first}
use rooti_server.Tenant.{CompanyScope, assert_company, resolve_company_filter}
use rooti_server.Pagination.{PageParams, Page, paged}
use rooti_server.Security.{PrincipalDetails}
use rooti_server.Deps.{get_company_scope}
use rooti_server.Text.{truthy}
use rooti_server.Leaves.{set_and, like_pattern}

pub record KioskBindRequest : Type 0 where
  pub company_id : ℕ
  pub kiosk_id : String
  pub name : Option String
  pub location : Option String
  pub capacity : ℕ

pub record KioskResponse : Type 0 where
  pub id : ℕ
  pub kiosk : CompanyKiosk
  pub company_name : Option String

-- The condition of the query for a duplicate in `bind`.
abbrev pub is_bound : ℕ → String → ℕ → CompanyKiosk → Bool
is_bound company_id kiosk_id id k = k.company_id == company_id && str_eq k.kiosk_id kiosk_id

-- `req.name or req.kiosk_id`
abbrev name_or : Option String → String → String
name_or none kiosk_id = kiosk_id
name_or (some name) kiosk_id = if truthy name then name else kiosk_id

unfoldable pub new_kiosk : KioskBindRequest → CompanyKiosk
new_kiosk req = record {
  company_id = req.company_id;
  kiosk_id = req.kiosk_id;
  name = some (name_or req.name req.kiosk_id);
  location = req.location;
  capacity = req.capacity;
  current_count = 0;
  status = "OFFLINE";
  assignee = none;
  last_reported_at = none;
}

-- `if status: base.where(CompanyKiosk.status == status)` and the condition on the company
abbrev kiosk_matches : Option ℕ → Option String → CompanyKiosk → Bool
kiosk_matches company_id none k = set_and company_id (λ c. k.company_id == c)
kiosk_matches company_id (some status) k =
    set_and company_id (λ c. k.company_id == c) && (not (truthy status) || str_eq k.status status)

module _ ⦃sql : Sql⦄ ⦃redis : Redis⦄ where
  -- `select(CompanyKiosk, Company.name).join(Company, …)` for one kiosk
  abbrev pub kiosk_row : World → ℕ × CompanyKiosk → Option KioskResponse
  kiosk_row w (id, k) = elim (sql.get k.company_id w.companies) [
    | none ↦ none
    | some company ↦ some (record { id = id; kiosk = k; company_name = some company.name })
  ]

  abbrev by_id : KioskResponse → ℕ
  by_id r = r.id

  pub list_by_company : ℕ → Exec World (List KioskResponse)
  list_by_company company_id = gets (λ w.
      sql.order_by asc by_id
        (inner_join (kiosk_row w) (sql.select (λ _ k. k.company_id == company_id) w.kiosks)))

  kiosk_like : String → Option String → Bool
  kiosk_like keyword none = false
  kiosk_like keyword (some text) = sql.ilike (like_pattern keyword) text

  keyword_matches : String → KioskResponse → Bool
  keyword_matches keyword r =
      kiosk_like keyword r.kiosk.name
      || sql.ilike (like_pattern keyword) r.kiosk.kiosk_id
      || kiosk_like keyword r.company_name

  abbrev keyword_filter : Option String → List KioskResponse → List KioskResponse
  keyword_filter none rows = rows
  keyword_filter (some keyword) rows =
      if truthy keyword then filter (keyword_matches keyword) rows else rows

  pub search :
      Option String → Option ℕ → Option String → PageParams → Exec World (Page KioskResponse)
  unfolding keyword_matches kiosk_like
  search keyword company_id status params = gets (λ w. paged params (
      sql.order_by asc by_id (
        keyword_filter keyword (
          inner_join (kiosk_row w)
            (sql.select (λ _ k. kiosk_matches company_id status k) w.kiosks)))))

  pub bind : KioskBindRequest → Exec World KioskResponse
  bind req = do
    found ← db_get companies req.company_id
    company ← or_raise found (business company_not_found)
    dup ← query_first kiosks (is_bound req.company_id req.kiosk_id)
    raise_if (not (is_none dup)) (business conflict)
    id ← add kiosks (new_kiosk req)
    pure (record { id = id; kiosk = new_kiosk req; company_name = some company.name })

  pub set_assignee : ℕ → Option String → CompanyScope → Exec World KioskResponse
  set_assignee kiosk_id assignee company_scope = do
    found ← db_get kiosks kiosk_id
    kiosk ← or_raise found (business resource_not_found)
    assert_company company_scope (some kiosk.company_id)
    let changed : CompanyKiosk = record kiosk { assignee = assignee }
    write kiosks kiosk_id changed
    company ← db_get companies kiosk.company_id
    pure (record {
      id = kiosk_id;
      kiosk = changed;
      company_name = elim company [ none ↦ none | some c ↦ some c.name ];
    })

  pub unbind : ℕ → CompanyScope → Exec World (Unit {0})
  unbind kiosk_id company_scope = do
    found ← db_get kiosks kiosk_id
    elim found [
      | none ↦ pure tt
      | some kiosk ↦ do assert_company company_scope (some kiosk.company_id); remove kiosks kiosk_id
    ]

  -- The endpoints of api/v1/kiosks.py: each resolves the scope of the user first.
  pub list_kiosks_endpoint :
      Option String
      → Option ℕ
      → Option String
      → PageParams
      → PrincipalDetails
      → Exec World (Page KioskResponse)
  list_kiosks_endpoint keyword requested status page me = do
    scope ← get_company_scope me
    company_id ← resolve_company_filter scope requested
    search keyword company_id status page

  pub list_by_company_endpoint : ℕ → PrincipalDetails → Exec World (List KioskResponse)
  list_by_company_endpoint company_id me = do
    scope ← get_company_scope me
    assert_company scope (some company_id)
    list_by_company company_id

  pub bind_endpoint : KioskBindRequest → PrincipalDetails → Exec World KioskResponse
  bind_endpoint req me = do
    scope ← get_company_scope me
    assert_company scope (some req.company_id)
    bind req

  pub set_assignee_endpoint : ℕ → Option String → PrincipalDetails → Exec World KioskResponse
  set_assignee_endpoint kiosk_id assignee me = do
    scope ← get_company_scope me
    set_assignee kiosk_id assignee scope

  pub unbind_endpoint : ℕ → PrincipalDetails → Exec World (Unit {0})
  unbind_endpoint kiosk_id me = do scope ← get_company_scope me; unbind kiosk_id scope
