-- ===== src/Users.antt =====
-- app/services/user.py: the administration of accounts. An answer carries the row and its key; its
-- reader leaves the password hash out.
pub mod Disable
pub mod Endpoints
mod Tests
use rooti_server.Base.{
  ℕ, Bool, true, false, ◌||◌, ◌+◌, Option, none, some, List, [], ◌∷◌, filter, length, String,
  str_eq, ltb, same, if◌then◌else◌,
}
use rooti_server.Errors.{business, user_not_found}
use rooti_server.Exec.{Exec, pure, gets, or_raise, ◌>>=◌, ◌>>◌}
use rooti_server.Sql.{Sql, asc}
use rooti_server.Redis.{Redis}
use rooti_server.Models.{User}
use rooti_server.Models.Enums.{UserRole, UserRole-discrete}
use rooti_server.World.{World, users}
use rooti_server.World.Session.{db_get, write, query_one}
use rooti_server.Pagination.{PageParams, Page, paged}
use rooti_server.Text.{truthy}
use rooti_server.Auth.{opt_str_eq}
use rooti_server.Leaves.{set_and, like_pattern}

module _ ⦃sql : Sql⦄ ⦃redis : Redis⦄ where
  keyword_matches : String → ℕ × User → Bool
  keyword_matches keyword (id, u) =
      sql.ilike (like_pattern keyword) u.name
      || sql.ilike (like_pattern keyword) u.username
      || elim u.email [ none ↦ false | some email ↦ sql.ilike (like_pattern keyword) email ]

  keyword_filter : Option String → List (ℕ × User) → List (ℕ × User)
  keyword_filter none rows = rows
  keyword_filter (some keyword) rows =
      if truthy keyword then filter (keyword_matches keyword) rows else rows

  abbrev by_id : ℕ × User → ℕ
  by_id (id, u) = id

  pub search : Option String → Option UserRole → PageParams → Exec World (Page (ℕ × User))
  unfolding keyword_filter keyword_matches
  search keyword role params = gets (λ w. paged params (
      sql.order_by asc by_id (
        keyword_filter keyword
          (sql.select (λ _ u. set_and role (λ r. same UserRole-discrete u.role r)) w.users))))

  unfoldable pub find_by_id : ℕ → Exec World (Option User)
  find_by_id user_id = db_get users user_id

  pub find_by_username : String → Exec World (Option (ℕ × User))
  find_by_username username = query_one users (λ _ u. str_eq u.username username)

  pub find_by_email : String → Exec World (Option (ℕ × User))
  find_by_email email = query_one users (λ _ u. opt_str_eq u.email (some email))

  pub exists_by_username : String → Exec World Bool
  exists_by_username username =
      gets (λ w. ltb 0 (length (sql.select (λ _ u. str_eq u.username username) w.users)))

  pub exists_by_email : String → Exec World Bool
  exists_by_email email =
      gets (λ w. ltb 0 (length (sql.select (λ _ u. opt_str_eq u.email (some email)) w.users)))

  pub count_by_role : UserRole → Exec World ℕ
  count_by_role role =
      gets (λ w. length (sql.select (λ _ u. same UserRole-discrete u.role role) w.users))

  unfoldable pub get_by_id : ℕ → Exec World User
  unfolding find_by_id
  get_by_id user_id = do found ← find_by_id user_id; or_raise found (business user_not_found)

  pub get_by_username : String → Exec World (ℕ × User)
  unfolding find_by_username
  get_by_username username = do
    found ← find_by_username username
    or_raise found (business user_not_found)

  unfoldable pub set_enabled : ℕ → Bool → Exec World (ℕ × User)
  unfolding get_by_id
  set_enabled user_id enabled = do
    user ← get_by_id user_id
    let changed : User = record user { enabled = enabled }
    write users user_id changed
    pure (user_id, changed)
