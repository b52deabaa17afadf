-- ===== src/Boards/Endpoints.antt =====
-- app/api/v1/boards.py: the author is the signed-in user.
use rooti_server.Base.{ℕ, Option, String}
use rooti_server.Exec.{Exec}
use rooti_server.Sql.{Sql}
use rooti_server.Redis.{Redis}
use rooti_server.World.{World}
use rooti_server.Security.{PrincipalDetails}
use rooti_server.Pagination.{PageParams, Page}
use rooti_server.Boards.{BoardWriteRequest, BoardResponse, get, list, create, update, delete}

module _ ⦃sql : Sql⦄ ⦃redis : Redis⦄ where
  pub list_boards : PageParams → Option String → PrincipalDetails → Exec World (Page BoardResponse)
  list_boards page keyword me = list keyword page

  pub get_board : ℕ → PrincipalDetails → Exec World BoardResponse
  get_board board_id me = get board_id

  pub create_board : BoardWriteRequest → PrincipalDetails → Exec World BoardResponse
  create_board req me = create me.user_id req

  pub update_board : ℕ → BoardWriteRequest → PrincipalDetails → Exec World BoardResponse
  update_board board_id req me = update me.user_id board_id req

  pub delete_board : ℕ → PrincipalDetails → Exec World (Unit {0})
  delete_board board_id me = delete me.user_id board_id
