-- ===== src/Workers.antt =====
-- app/services/worker.py: worker accounts, hiring by a company, and retirement.
pub mod Hiring
pub mod Retirement
pub mod Endpoints
mod Tests
use rooti_server.Base.{
  ℕ, ◌/◌, Bool, true, false, not, ◌&&◌, ◌||◌, Option, none, some, List, [], ◌∷◌, filter, map,
  String, str_eq, ◌==◌, is_none, if◌then◌else◌,
}
use rooti_server.Errors.{
  business, assertion_error, worker_not_found, user_username_duplicated, worker_already_hired,
  company_not_found,
}
use rooti_server.Exec.{Exec, pure, raise, gets, raise_if, or_raise, ◌>>=◌, ◌>>◌}
use rooti_server.Sql.{Sql, desc}
use rooti_server.Sql.Query.{inner_join}
use rooti_server.Redis.{Redis}
use rooti_server.Crypto.{Crypto}
use rooti_server.Models.{ChallengedWorker, Company, CompanyWorker, User}
use rooti_server.Models.Enums.{worker as worker_role}
use rooti_server.World.{World, users, workers, companies, company_workers}
use rooti_server.World.Session.{db_get, add, write, query_first}
use rooti_server.Pagination.{PageParams, Page, paged}
use rooti_server.Security.{Settings}
use rooti_server.Auth.{hash_password}
use rooti_server.Text.{truthy}
use rooti_server.Leaves.{like_pattern}

pub record WorkerCreateRequest : Type 0 where
  pub username : String
  pub email : String
  pub password : String
  pub name : String
  pub phone_number : Option String

pub record WorkerResponse : Type 0 where
  pub id : ℕ
  pub user_id : ℕ
  pub username : String
  pub name : String
  pub email : Option String
  pub phone_number : Option String
  pub employment_status : String
  pub retired_at : Option ℕ

pub record CompanyWorkerResponse : Type 0 where
  pub id : ℕ
  pub company_id : ℕ
  pub company_name : String
  pub worker : WorkerResponse
  pub hired : Bool

abbrev pub worker_response : ℕ → ChallengedWorker → User → WorkerResponse
worker_response id w user = record {
  id = id;
  user_id = w.user_id;
  username = user.username;
  name = user.name;
  email = user.email;
  phone_number = user.phone_number;
  employment_status = elim w.retired_at [ none ↦ "ACTIVE" | some _ ↦ "RETIRED" ];
  retired_at = elim w.retired_at [ none ↦ none | some t ↦ some (t / 86400) ];
}

abbrev pub company_worker_response :
    ℕ → CompanyWorker → ChallengedWorker → User → Company → CompanyWorkerResponse
company_worker_response id cw w user company = record {
  id = id;
  company_id = cw.company_id;
  company_name = company.name;
  worker = worker_response cw.challenged_worker_id w user;
  hired = cw.is_hired;
}

-- The condition of the query for a duplicate in `hire`: it does not look at `is_hired`.
abbrev pub is_mapping : ℕ → ℕ → ℕ → CompanyWorker → Bool
is_mapping company_id worker_id id cw =
    cw.company_id == company_id && cw.challenged_worker_id == worker_id

-- `employment_status == "ACTIVE"`, `== "RETIRED"`, or no condition
abbrev status_matches : Option String → ChallengedWorker → Bool
status_matches none w = true
status_matches (some status) w =
    if str_eq status "ACTIVE"
    then is_none w.retired_at
    else if str_eq status "RETIRED"
    then not (is_none w.retired_at)
    else true

module _ ⦃sql : Sql⦄ ⦃redis : Redis⦄ where
  unfoldable pub get_or_throw : ℕ → Exec World ChallengedWorker
  get_or_throw worker_id = do
    found ← db_get workers worker_id
    or_raise found (business worker_not_found)

  -- `await self.db.get(User, worker.user_id)` and `assert user is not None`
  unfoldable pub user_of : ChallengedWorker → Exec World User
  user_of w = do found ← db_get users w.user_id; or_raise found assertion_error

  pub get : ℕ → Exec World WorkerResponse
  unfolding get_or_throw user_of
  get worker_id = do
    worker ← get_or_throw worker_id
    user ← user_of worker
    pure (worker_response worker_id worker user)

  -- `select(ChallengedWorker, User).join(User, …)` for one worker
  worker_row : World → ℕ × ChallengedWorker → Option (WorkerResponse × User)
  worker_row w (id, worker) = elim (sql.get worker.user_id w.users) [
    | none ↦ none
    | some user ↦ some (worker_response id worker user, user)
  ]

  keyword_matches : String → WorkerResponse × User → Bool
  keyword_matches keyword (r, user) =
      sql.ilike (like_pattern keyword) user.username
      || sql.ilike (like_pattern keyword) user.name
      || elim user.email [ none ↦ false | some email ↦ sql.ilike (like_pattern keyword) email ]

  keyword_filter : Option String → List (WorkerResponse × User) → List (WorkerResponse × User)
  keyword_filter none rows = rows
  keyword_filter (some keyword) rows =
      if truthy keyword then filter (keyword_matches keyword) rows else rows

  abbrev by_id : WorkerResponse → ℕ
  by_id r = r.id

  pub search : Option String → PageParams → Option String → Exec World (Page WorkerResponse)
  unfolding worker_row keyword_filter keyword_matches
  search keyword params employment_status = gets (λ w. paged params (
      sql.order_by desc by_id (
        map (λ row. row.0)
          (keyword_filter keyword (
            inner_join (worker_row w)
              (sql.select (λ _ worker. status_matches employment_status worker) w.workers))))))

  pub hire : ℕ → ℕ → Exec World CompanyWorkerResponse
  unfolding get_or_throw user_of
  hire company_id worker_id = do
    dup ← query_first company_workers (is_mapping company_id worker_id)
    raise_if (not (is_none dup)) (business worker_already_hired)
    found ← db_get companies company_id
    company ← or_raise found (business company_not_found)
    worker ← get_or_throw worker_id
    user ← user_of worker
    let cw : CompanyWorker = record {
      company_id = company_id;
      challenged_worker_id = worker_id;
      is_hired = true;
    }
    id ← add company_workers cw
    pure (company_worker_response id cw worker user company)

  pub fire : ℕ → Exec World (Unit {0})
  fire company_worker_id = do
    found ← db_get company_workers company_worker_id
    cw ← or_raise found (business worker_not_found)
    write company_workers company_worker_id (record cw { is_hired = false })

  unfoldable pub retire : ℕ → Exec World WorkerResponse
  unfolding get_or_throw user_of
  retire worker_id = do
    worker ← get_or_throw worker_id
    user ← user_of worker
    now ← gets (λ w. w.now)
    let retired : ChallengedWorker = elim worker.retired_at [
      | none ↦ record worker { retired_at = some now }
      | some _ ↦ worker
    ]
    write workers worker_id retired
    pure (worker_response worker_id retired user)

  unfoldable pub rehire : ℕ → Exec World WorkerResponse
  unfolding get_or_throw user_of
  rehire worker_id = do
    worker ← get_or_throw worker_id
    user ← user_of worker
    let active : ChallengedWorker = record worker { retired_at = none }
    write workers worker_id active
    pure (worker_response worker_id active user)

  -- The join of a mapping with its worker, user and company.
  abbrev membership_row : World → ℕ × CompanyWorker → Option CompanyWorkerResponse
  membership_row w (id, cw) = elim (sql.get cw.challenged_worker_id w.workers) [
    | none ↦ none
    | some worker ↦ elim (sql.get worker.user_id w.users) [
      | none ↦ none
      | some user ↦ elim (sql.get cw.company_id w.companies) [
        | none ↦ none
        | some company ↦ some (company_worker_response id cw worker user company)
      ]
    ]
  ]

  abbrev by_mapping : CompanyWorkerResponse → ℕ
  by_mapping r = r.id

  pub list_by_company : ℕ → PageParams → Exec World (Page CompanyWorkerResponse)
  list_by_company company_id params = gets (λ w. paged params (
      sql.order_by desc by_mapping (
        inner_join (membership_row w)
          (sql.select (λ _ cw. cw.company_id == company_id) w.company_workers))))

  pub list_memberships : ℕ → Exec World (List CompanyWorkerResponse)
  unfolding get_or_throw
  list_memberships worker_id = do
    get_or_throw worker_id
    gets (λ w. sql.order_by desc by_mapping (
        inner_join (membership_row w)
          (sql.select (λ _ cw. cw.challenged_worker_id == worker_id) w.company_workers)))

module _ ⦃sql : Sql⦄ ⦃redis : Redis⦄ ⦃crypto : Crypto⦄ ⦃settings : Settings⦄ where
  pub create : WorkerCreateRequest → Exec World WorkerResponse
  create req = do
    dup ← query_first users (λ _ u. str_eq u.username req.username)
    raise_if (not (is_none dup)) (business user_username_duplicated)
    hashed ← hash_password req.password
    let user : User = record {
      username = req.username;
      email = some req.email;
      password_hash = hashed;
      name = req.name;
      phone_number = req.phone_number;
      role = worker_role;
      enabled = true;
      last_login_at = none;
    }
    user_id ← add users user
    let w : ChallengedWorker = record { user_id = user_id; fcm_token = none; retired_at = none }
    worker_id ← add workers w
    pure (worker_response worker_id w user)
