-- ===== src/Boards/Tests.antt =====
-- The theorems on the board for one post of kim.
use rooti_server.Base.{ℕ, ◌≡◌, ap, sym, ◌↔◌, true, none, some, [], ◌∷◌, arith}
use rooti_server.Models.{CaregiverBoard}
use rooti_server.World.{World}
use rooti_server.Boards.{BoardWriteRequest, new_board}
use rooti_server.Boards.Escape.{has_no_markup}
use rooti_server.Boards.Authors.{
  update_call, call, others_posts_kept, BodiesEscaped, bodies_escaped,
}
use rooti_server.Samples.{sql, redis, settings, office}

abbrev request : BoardWriteRequest
request = record { title = "hello"; body = "<b>hi</b>"; published = none }

abbrev post : CaregiverBoard
post = record (new_board 0 request 1000) { body = "hi" }

abbrev posted : World
posted = record office { boards = some post ∷ [] }

others_posts_kept_example :
    (sql.get 0 (call 1 (update_call 0 request) posted).boards ≡ some post)
    ↔ (sql.get 0 posted.boards ≡ some post)
unfolding new_board
others_posts_kept_example =
    others_posts_kept 1 (update_call 0 request) posted 0 post (λ e. omega arith)

posted-BodiesEscaped : BodiesEscaped posted
posted-BodiesEscaped ℕ.zero b got =
    ap (λ o. elim o [ none ↦ true | some x ↦ has_no_markup x.body ]) (sym got)
posted-BodiesEscaped (ℕ.suc j) b got = cc

bodies_escaped_example : BodiesEscaped (call 0 (update_call 0 request) posted)
bodies_escaped_example = bodies_escaped 0 (update_call 0 request) posted posted-BodiesEscaped
