-- ===== src/Companies.antt =====
-- app/services/company.py and app/api/v1/companies.py: the companies, with single rows read through
-- the cache. `cached` says whether the service was given a Redis client.
pub mod Wire
pub mod Coherence
pub mod Agreement
pub mod Refinement
pub mod Misses
pub mod Endpoints
mod Tests
use rooti_server.Base.{
  ℕ, Bool, true, false, not, ◌&&◌, ◌||◌, Option, none, some, List, [], ◌∷◌, filter, is_none, map,
  String, str_eq, if◌then◌else◌,
}
use rooti_server.Errors.{business, company_not_found, conflict}
use rooti_server.Exec.{Exec, pure, gets, raise_if, or_raise, ◌>>=◌, ◌>>◌}
use rooti_server.Sql.{Sql, desc}
use rooti_server.Redis.{Redis}
use rooti_server.Models.{Company}
use rooti_server.World.{World, companies}
use rooti_server.World.Session.{db_get, write, add, query_first}
use rooti_server.Pagination.{PageParams, Page, paged}
use rooti_server.Text.{truthy}
use rooti_server.Leaves.{like_pattern}
use rooti_server.Security.{PrincipalDetails}
use rooti_server.Cache.{Json, Model, get_model, set_model, evict}
use rooti_server.Companies.Wire.{CompanyResponse, response}

pub record CompanyCreateRequest : Type 0 where
  pub name : String
  pub location : Option String
  pub image_path : Option String
  pub template_id : Option String
  pub template_data : Option String

pub record CompanyUpdateRequest : Type 0 where
  pub name : Option String
  pub location : Option String
  pub image_path : Option String
  pub template_id : Option String
  pub template_data : Option String

-- `if x is not None: column = x`
abbrev pub given : {A : Type 0} → Option A → A → A
given none old = old
given (some x) old = x

abbrev pub given_option : {A : Type 0} → Option A → Option A → Option A
given_option none old = old
given_option (some x) old = some x

abbrev pub actor_id : Option PrincipalDetails → Option ℕ
actor_id none = none
actor_id (some me) = some me.user_id

unfoldable pub new_company : CompanyCreateRequest → Option PrincipalDetails → Company
new_company req actor = record {
  name = req.name;
  location = req.location;
  use_flag = true;
  image_path = req.image_path;
  template_id = req.template_id;
  template_data = req.template_data;
  created_by = actor_id actor;
  updated_by = actor_id actor;
}

unfoldable pub changed_company : CompanyUpdateRequest → Option PrincipalDetails → Company → Company
changed_company req actor c = record c {
  name = given req.name c.name;
  location = given_option req.location c.location;
  image_path = given_option req.image_path c.image_path;
  template_id = given_option req.template_id c.template_id;
  template_data = given_option req.template_data c.template_data;
  updated_by = given_option (actor_id actor) c.updated_by;
}

unfoldable pub inactive_company : Option PrincipalDetails → Company → Company
inactive_company actor c = record c {
  use_flag = false;
  updated_by = given_option (actor_id actor) c.updated_by;
}

module _ ⦃sql : Sql⦄ ⦃redis : Redis⦄ where
  unfoldable pub get_or_throw : ℕ → Exec World Company
  get_or_throw company_id = do
    company ← db_get companies company_id
    or_raise company (business company_not_found)

  -- `if self.redis is not None: await cache.evict(…)`
  unfoldable pub evict_company : Bool → ℕ → Exec World (Unit {0})
  evict_company cached company_id = if cached then evict "company" company_id else pure tt

  keyword_matches : String → ℕ × Company → Bool
  keyword_matches keyword (id, c) =
      sql.ilike (like_pattern keyword) c.name
      || elim c.location [ none ↦ false | some l ↦ sql.ilike (like_pattern keyword) l ]

  keyword_filter : Option String → List (ℕ × Company) → List (ℕ × Company)
  keyword_filter none rows = rows
  keyword_filter (some keyword) rows =
      if truthy keyword then filter (keyword_matches keyword) rows else rows

  abbrev by_id : ℕ × Company → ℕ
  by_id (id, c) = id

  abbrev to_response : ℕ × Company → CompanyResponse
  to_response (id, c) = response id c

  pub search : Option String → PageParams → Exec World (Page CompanyResponse)
  unfolding keyword_filter keyword_matches
  search keyword params = gets (λ w. paged params (
      map to_response (
        sql.order_by desc by_id
          (keyword_filter keyword (sql.select (λ _ c. c.use_flag) w.companies)))))

  unfoldable pub create :
      CompanyCreateRequest → Option PrincipalDetails → Exec World CompanyResponse
  create req actor = do
    dup ← query_first companies (λ _ c. str_eq c.name req.name)
    raise_if (not (is_none dup)) (business conflict)
    id ← add companies (new_company req actor)
    pure (response id (new_company req actor))

  unfoldable pub update :
      Bool → ℕ → CompanyUpdateRequest → Option PrincipalDetails → Exec World CompanyResponse
  update cached company_id req actor = do
    company ← get_or_throw company_id
    write companies company_id (changed_company req actor company)
    evict_company cached company_id
    pure (response company_id (changed_company req actor company))

  unfoldable pub deactivate : Bool → ℕ → Option PrincipalDetails → Exec World (Unit {0})
  deactivate cached company_id actor = do
    company ← get_or_throw company_id
    write companies company_id (inactive_company actor company)
    evict_company cached company_id

module _ ⦃sql : Sql⦄ ⦃redis : Redis⦄ ⦃json : Json⦄ ⦃model : Model CompanyResponse⦄ where
  unfoldable pub cached_company : Bool → ℕ → Exec World (Option CompanyResponse)
  cached_company cached company_id = if cached then get_model "company" company_id else pure none

  unfoldable pub keep_company : Bool → CompanyResponse → ℕ → Exec World (Unit {0})
  keep_company cached resp company_id =
      if cached then set_model resp "company" company_id 600 else pure tt

  unfoldable pub load : Bool → ℕ → Exec World CompanyResponse
  load cached company_id = do
    company ← get_or_throw company_id
    keep_company cached (response company_id company) company_id
    pure (response company_id company)

  unfoldable pub get : Bool → ℕ → Exec World CompanyResponse
  get cached company_id = do
    hit ← cached_company cached company_id
    elim hit [ none ↦ load cached company_id | some resp ↦ pure resp ]
