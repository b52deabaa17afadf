-- ===== src/Chargers.antt =====
-- app/services/charger.py: the people in charge at a company.
pub mod Hired
pub mod Endpoints
mod Tests
use rooti_server.Base.{
  ℕ, Bool, true, false, ◌||◌, Option, none, some, List, filter, String, ◌==◌, if◌then◌else◌,
}
use rooti_server.Errors.{business, assertion_error, resource_not_found}
use rooti_server.Exec.{Exec, pure, gets, or_raise, ◌>>=◌, ◌>>◌}
use rooti_server.Sql.{Sql, asc}
use rooti_server.Sql.Query.{inner_join}
use rooti_server.Redis.{Redis}
use rooti_server.Models.{CompanyCharger, User, Company}
use rooti_server.World.{World, users, companies, chargers}
use rooti_server.World.Session.{db_get, write}
use rooti_server.Pagination.{PageParams, Page, paged}
use rooti_server.Text.{truthy}
use rooti_server.Leaves.{set_and, like_pattern}

pub record ChargerResponse : Type 0 where
  pub id : ℕ
  pub user_id : ℕ
  pub username : String
  pub name : String
  pub phone_number : Option String
  pub email : Option String
  pub company_id : ℕ
  pub company_name : String
  pub hired : Bool

abbrev pub charger_response : ℕ → CompanyCharger → User → Company → ChargerResponse
charger_response id cc user company = record {
  id = id;
  user_id = cc.user_id;
  username = user.username;
  name = user.name;
  phone_number = user.phone_number;
  email = user.email;
  company_id = cc.company_id;
  company_name = company.name;
  hired = cc.is_hired;
}

module _ ⦃sql : Sql⦄ ⦃redis : Redis⦄ where
  -- The join of a charger with its user and company.
  abbrev charger_row : World → ℕ × CompanyCharger → Option ChargerResponse
  charger_row w (id, c) = elim (sql.get c.user_id w.users) [
    | none ↦ none
    | some user ↦ elim (sql.get c.company_id w.companies) [
      | none ↦ none
      | some company ↦ some (charger_response id c user company)
    ]
  ]

  keyword_matches : String → ChargerResponse → Bool
  keyword_matches keyword r =
      sql.ilike (like_pattern keyword) r.name
      || sql.ilike (like_pattern keyword) r.username
      || sql.ilike (like_pattern keyword) r.company_name

  keyword_filter : Option String → List ChargerResponse → List ChargerResponse
  keyword_filter none rows = rows
  keyword_filter (some keyword) rows =
      if truthy keyword then filter (keyword_matches keyword) rows else rows

  abbrev by_id : ChargerResponse → ℕ
  by_id r = r.id

  pub search : Option String → Option ℕ → PageParams → Exec World (Page ChargerResponse)
  unfolding keyword_filter keyword_matches
  search keyword company_id params = gets (λ w. paged params (
      sql.order_by asc by_id (
        keyword_filter keyword (
          inner_join (charger_row w)
            (sql.select (λ _ c. set_and company_id (λ k. c.company_id == k)) w.chargers)))))

  unfoldable pub set_hired : ℕ → Bool → Exec World ChargerResponse
  set_hired charger_id hired = do
    found ← db_get chargers charger_id
    c ← or_raise found (business resource_not_found)
    let changed : CompanyCharger = record c { is_hired = hired }
    write chargers charger_id changed
    user_found ← db_get users c.user_id
    company_found ← db_get companies c.company_id
    user ← or_raise user_found assertion_error
    company ← or_raise company_found assertion_error
    pure (charger_response charger_id changed user company)
