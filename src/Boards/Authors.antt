-- ===== src/Boards/Authors.antt =====
-- Who changes a post, and what a stored body can hold.
use rooti_server.Base.{ℕ, ◌≡◌, ◌≢◌, ◌↔◌, inl, inr, true, some, arith, Option-cases}
use rooti_server.Sql.{Sql}
use rooti_server.Redis.{Redis}
use rooti_server.Models.{CaregiverBoard}
use rooti_server.World.{World}
use rooti_server.Boards.Escape.{has_no_markup, sanitize_no_markup}
use rooti_server.Boards.{BoardWriteRequest, new_board, changed_board, create, update, delete}

-- What a signed-in user can ask for.
pub data BoardCall : Type 0 where
  create_call : BoardWriteRequest → BoardCall
  update_call : ℕ → BoardWriteRequest → BoardCall
  delete_call : ℕ → BoardCall

module _ ⦃sql : Sql⦄ ⦃redis : Redis⦄ where
  abbrev pub call : ℕ → BoardCall → World → World
  call user_id (create_call req) w = (create user_id req w).1
  call user_id (update_call board_id req) w = (update user_id board_id req w).1
  call user_id (delete_call board_id) w = (delete user_id board_id w).1

  -- The posts of other authors are the same after any board request of a user: none is added, changed
  -- or removed.
  pub others_posts_kept :
      (user_id : ℕ) (c : BoardCall) (w : World) (j : ℕ) (b : CaregiverBoard)
      → b.author_id ≢ user_id
      → (sql.get j (call user_id c w).boards ≡ some b) ↔ (sql.get j w.boards ≡ some b)
  unfolding create update delete new_board changed_board
  others_posts_kept user_id (create_call req) w j b other =
      let row = new_board user_id req w.now in
      elim (Option-cases (sql.insert row w.boards)) [
        | inl refused ↦ (ground arith, ground arith)
        | inr (added, e) ↦
            let at = sql.get-insert row w.boards added.0 added.1 j e in
            let fresh = sql.insert_fresh row w.boards added.0 added.1 e in
            (ground (arith, at, fresh), ground (arith, at, fresh))
      ]
  others_posts_kept user_id (update_call board_id req) w j b other =
      elim (Option-cases (sql.get board_id w.boards)) [
        | inl missing ↦ (ground arith, ground arith)
        | inr (found, e) ↦
            let at = sql.get-update board_id (changed_board user_id req found) w.boards j in
            (ground (arith, at), ground (arith, at))
      ]
  others_posts_kept user_id (delete_call board_id) w j b other =
      elim (Option-cases (sql.get board_id w.boards)) [
        | inl missing ↦ (ground arith, ground arith)
        | inr (found, e) ↦
            let at = sql.get-delete board_id w.boards j in (ground (arith, at), ground (arith, at))
      ]

  abbrev pub BodiesEscaped : World → Type 0
  BodiesEscaped w =
      (j : ℕ) (b : CaregiverBoard) → sql.get j w.boards ≡ some b → has_no_markup b.body ≡ true

  -- From a board whose bodies hold no `<`, `>`, `"` or `'`, every request, whatever its body, keeps
  -- the stored bodies free of them.
  pub bodies_escaped :
      (user_id : ℕ) (c : BoardCall) (w : World) → BodiesEscaped w → BodiesEscaped (call user_id c w)
  unfolding create update delete new_board changed_board
  bodies_escaped user_id (create_call req) w safe j b got =
      let row = new_board user_id req w.now in
      let escaped = sanitize_no_markup req.body in
      elim (Option-cases (sql.insert row w.boards)) [
        | inl refused ↦ ground (arith, safe j b)
        | inr (added, e) ↦
            ground (arith, sql.get-insert row w.boards added.0 added.1 j e, safe j b, escaped)
      ]
  bodies_escaped user_id (update_call board_id req) w safe j b got =
      let escaped = sanitize_no_markup req.body in
      elim (Option-cases (sql.get board_id w.boards)) [
        | inl missing ↦ ground (arith, safe j b)
        | inr (found, e) ↦ ground (
          arith,
          sql.get-update board_id (changed_board user_id req found) w.boards j,
          safe j b,
          escaped,
        )
      ]
  bodies_escaped user_id (delete_call board_id) w safe j b got =
      ground (arith, sql.get-delete board_id w.boards j, safe j b)
