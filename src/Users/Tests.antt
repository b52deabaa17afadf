-- ===== src/Users/Tests.antt =====
-- The theorem on disabled accounts for kim, whose refresh token was issued at 900.
use rooti_server.Base.{◌≡◌, refl, false, [], ◌∷◌, String}
use rooti_server.Errors.{business, auth_refresh_not_found}
use rooti_server.Exec.{err}
use rooti_server.Crypto.Sample.{sample}
use rooti_server.Models.Enums.{admin}
use rooti_server.World.{World}
use rooti_server.Text.Decimal.{str_of, int_of}
use rooti_server.Security.{refresh as refresh_type, ttl, create_token, refresh_ttl_seconds}
use rooti_server.Auth.{refresh, revoke, save}
use rooti_server.Auth.Sessions.{RefreshOf, at}
use rooti_server.Users.{set_enabled}
use rooti_server.Users.Disable.{disable_ends_session}
use rooti_server.Samples.{sql, redis, settings, office, user}

abbrev token : String
token = create_token 0 "kim" ("ADMIN" ∷ []) refresh_type 900

abbrev signed_in : World
signed_in = save 0 token refresh_ttl_seconds office

token-RefreshOf : RefreshOf 0 token 2000
unfolding create_token str_of int_of ttl
token-RefreshOf = record {
  claims = record {
    iss = "rooti";
    sub = "0";
    iat = 900;
    exp = 1210500;
    usn = "kim";
    roles = "ADMIN" ∷ [];
    typ = "REFRESH";
  };
  decoded = refl;
  typed = refl;
  subject = refl;
}

disable_ends_session_example :
    refresh token (at 2000 (set_enabled 0 false signed_in).1)
    ≡ (err (business auth_refresh_not_found), revoke 0 (at 2000 (set_enabled 0 false signed_in).1))
unfolding save
disable_ends_session_example =
    disable_ends_session 0 (user "kim" admin) token signed_in 2000 refl token-RefreshOf
