-- ===== src/Users/Disable.antt =====
-- A disabled account loses its session.
use rooti_server.Base.{ℕ, ◌≡◌, ◌∙◌, inl, inr, false, some, String, arith, Bool-cases}
use rooti_server.Errors.{business, auth_refresh_not_found}
use rooti_server.Exec.{err}
use rooti_server.Sql.{Sql}
use rooti_server.Redis.{Redis}
use rooti_server.Crypto.{Crypto}
use rooti_server.Models.{User}
use rooti_server.World.{World}
use rooti_server.Security.{Settings}
use rooti_server.Auth.{refresh, refresh_user, revoke, matches}
use rooti_server.Auth.Sessions.{RefreshOf, at, refresh_stale, refresh_live}
use rooti_server.Users.{set_enabled, get_by_id, find_by_id}

module _ ⦃sql : Sql⦄ ⦃redis : Redis⦄ ⦃crypto : Crypto⦄ ⦃settings : Settings⦄ where
  disabled_refresh :
      (user_id : ℕ) (user : User) (w : World) (later : ℕ)
      → sql.get user_id w.users ≡ some user
      → refresh_user user_id (at later (set_enabled user_id false w).1) ≡ (
        err (business auth_refresh_not_found),
        revoke user_id (at later (set_enabled user_id false w).1),
      )
  unfolding refresh_user set_enabled get_by_id find_by_id
  disabled_refresh user_id user w later found =
      ground (arith, sql.get-update user_id (record user { enabled = false }) w.users user_id)

  -- After a known account is disabled, a refresh token of it that is still valid is refused, whenever
  -- it comes, the live one too, and the attempt removes the live one.
  pub disable_ends_session :
      (user_id : ℕ) (user : User) (token : String) (w : World) (later : ℕ)
      → sql.get user_id w.users ≡ some user
      → RefreshOf user_id token later
      → refresh token (at later (set_enabled user_id false w).1) ≡ (
        err (business auth_refresh_not_found),
        revoke user_id (at later (set_enabled user_id false w).1),
      )
  disable_ends_session user_id user token w later found r =
      let w' = at later (set_enabled user_id false w).1 in
      elim (Bool-cases (matches user_id token w')) [
        | inl live ↦
            refresh_live user_id token w' r live ∙ disabled_refresh user_id user w later found
        | inr stale ↦ refresh_stale user_id token w' r stale
      ]
