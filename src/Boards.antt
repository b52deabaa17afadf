-- ===== src/Boards.antt =====
-- app/services/board.py: the caregiver board, whose posts are stored escaped and are changed by their
-- author only. `updated_at` is left out.
pub mod Escape
pub mod Authors
pub mod Endpoints
mod Tests
use rooti_server.Base.{
  ℕ, Bool, true, false, not, ◌&&◌, ◌||◌, Option, none, some, List, filter, String, ◌==◌,
  if◌then◌else◌,
}
use rooti_server.Errors.{business, board_not_found, auth_forbidden}
use rooti_server.Exec.{Exec, pure, raise, gets, raise_if, or_raise, ◌>>=◌, ◌>>◌}
use rooti_server.Sql.{Sql, desc}
use rooti_server.Sql.Query.{inner_join}
use rooti_server.Redis.{Redis}
use rooti_server.Models.{CaregiverBoard, User}
use rooti_server.World.{World, users, boards}
use rooti_server.World.Session.{db_get, add, write, remove}
use rooti_server.Pagination.{PageParams, Page, paged}
use rooti_server.Text.{truthy}
use rooti_server.Leaves.{like_pattern}
use rooti_server.Boards.Escape.{sanitize}

pub record BoardWriteRequest : Type 0 where
  pub title : String
  pub body : String
  pub published : Option Bool

pub record BoardResponse : Type 0 where
  pub id : ℕ
  pub title : String
  pub body : String
  pub author_name : Option String
  pub author_id : ℕ
  pub published : Bool
  pub created_at : ℕ

abbrev pub board_response : ℕ → CaregiverBoard → Option String → BoardResponse
board_response id b author_name = record {
  id = id;
  title = b.title;
  body = b.body;
  author_name = author_name;
  author_id = b.author_id;
  published = b.is_published;
  created_at = b.created_at;
}

-- The flag of a new post, and of a changed one.
abbrev pub published_or : Option Bool → Bool → Bool
published_or none b = b
published_or (some published) b = published

unfoldable pub new_board : ℕ → BoardWriteRequest → ℕ → CaregiverBoard
new_board author_user_id req now = record {
  author_id = author_user_id;
  title = req.title;
  body = sanitize req.body;
  is_published = published_or req.published true;
  created_at = now;
  created_by = some author_user_id;
  updated_by = some author_user_id;
}

unfoldable pub changed_board : ℕ → BoardWriteRequest → CaregiverBoard → CaregiverBoard
changed_board author_user_id req b = record b {
  title = req.title;
  body = sanitize req.body;
  is_published = published_or req.published b.is_published;
  updated_by = some author_user_id;
}

module _ ⦃sql : Sql⦄ ⦃redis : Redis⦄ where
  unfoldable pub get_or_throw : ℕ → Exec World CaregiverBoard
  get_or_throw board_id = do
    found ← db_get boards board_id
    or_raise found (business board_not_found)

  unfoldable pub author_name : ℕ → Exec World (Option String)
  author_name author_id =
      gets (λ w. elim (sql.get author_id w.users) [ none ↦ none | some user ↦ some user.name ])

  pub get : ℕ → Exec World BoardResponse
  unfolding get_or_throw author_name
  get board_id = do
    b ← get_or_throw board_id
    name ← author_name b.author_id
    pure (board_response board_id b name)

  -- `select(CaregiverBoard, User.name).join(User, …)` for one post
  abbrev board_row : World → ℕ × CaregiverBoard → Option BoardResponse
  board_row w (id, b) = elim (sql.get b.author_id w.users) [
    | none ↦ none
    | some user ↦ some (board_response id b (some user.name))
  ]

  keyword_filter : Option String → List BoardResponse → List BoardResponse
  keyword_filter none rows = rows
  keyword_filter (some keyword) rows =
      if truthy keyword
      then filter
          (λ r. sql.ilike (like_pattern keyword) r.title || sql.ilike (like_pattern keyword) r.body)
          rows
      else rows

  abbrev by_created_at : BoardResponse → ℕ
  by_created_at r = r.created_at

  pub list : Option String → PageParams → Exec World (Page BoardResponse)
  unfolding keyword_filter
  list keyword params = gets (λ w. paged params (
      sql.order_by desc by_created_at (
        keyword_filter keyword
          (inner_join (board_row w) (sql.select (λ _ b. b.is_published) w.boards)))))

  pub create : ℕ → BoardWriteRequest → Exec World BoardResponse
  unfolding author_name
  create author_user_id req = do
    now ← gets (λ w. w.now)
    id ← add boards (new_board author_user_id req now)
    name ← author_name author_user_id
    pure (board_response id (new_board author_user_id req now) name)

  pub update : ℕ → ℕ → BoardWriteRequest → Exec World BoardResponse
  unfolding get_or_throw author_name
  update author_user_id board_id req = do
    b ← get_or_throw board_id
    raise_if (not (b.author_id == author_user_id)) (business auth_forbidden)
    write boards board_id (changed_board author_user_id req b)
    name ← author_name b.author_id
    pure (board_response board_id (changed_board author_user_id req b) name)

  pub delete : ℕ → ℕ → Exec World (Unit {0})
  unfolding get_or_throw
  delete author_user_id board_id = do
    b ← get_or_throw board_id
    raise_if (not (b.author_id == author_user_id)) (business auth_forbidden)
    remove boards board_id
