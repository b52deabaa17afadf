-- ===== src/Auth/Tests.antt =====
-- The theorems on tokens and sessions for one user, and the same token issued twice in a second.
use rooti_server.Base.{
  ℕ, ◌≡◌, ◌≢◌, refl, true, none, some, List, [], ◌∷◌, String, str_eq, eq_iff, arith, if◌then◌else◌,
  leb, ◌+◌,
}
use rooti_server.Errors.{business, auth_token_expired, auth_refresh_not_found}
use rooti_server.Exec.{ok, err}
use rooti_server.Crypto.{Claims}
use rooti_server.Crypto.Sample.{sample}
use rooti_server.Models.{User}
use rooti_server.Models.Enums.{admin}
use rooti_server.World.{World}
use rooti_server.Text.Decimal.{str_of, int_of}
use rooti_server.Security.{
  access, refresh as refresh_type, ttl, create_token, parse_token, read_claims, payload_of,
  verify_password, to_bcrypt_input, access_ttl_seconds, refresh_ttl_seconds,
}
use rooti_server.Auth.{
  LoginRequest, login_writes, mark_logged_in, hash_password, TokenResponse, refresh, refresh_key,
  revoke, save, find, matches, role_value, change_password, login, issue_token_pair,
}
use rooti_server.Auth.Tokens.{issued, parse_token-create_token}
use rooti_server.Auth.Sessions.{
  RefreshOf, at, refresh_reuse, refresh_rotates, change_password_ends_session, refresh_same_second,
}
use rooti_server.Auth.Login.{login_sound}
use rooti_server.Samples.{sql, redis, settings, blank, user}

abbrev roles : List String
roles = "ADMIN" ∷ []

parse_token-create_token_example :
    parse_token (create_token 7 "kim" roles access 1000) access 1500 tt ≡ (
      if leb (1000 + ttl access) 1500
      then (err (business auth_token_expired), tt {0})
      else (ok (issued 7 "kim" roles access 1000), tt))
parse_token-create_token_example =
    parse_token-create_token 7 "kim" roles access 1000 1500 tt (omega arith)

abbrev old_token : String
old_token = create_token 0 "kim" roles refresh_type 900

-- The user kim, whose live refresh token was issued at 900.
abbrev signed_in : World
signed_in =
    save 0 old_token refresh_ttl_seconds (record blank { users = some (user "kim" admin) ∷ [] })

abbrev old_claims : Claims
old_claims = record {
  iss = "rooti";
  sub = "0";
  iat = 900;
  exp = 1210500;
  usn = "kim";
  roles = roles;
  typ = "REFRESH";
}

old_RefreshOf : RefreshOf 0 old_token 1000
unfolding create_token str_of int_of ttl
old_RefreshOf = record { claims = old_claims; decoded = refl; typed = refl; subject = refl }

refresh_reuse_example :
    (refresh old_token (revoke 0 signed_in)
      ≡ (err (business auth_refresh_not_found), revoke 0 (revoke 0 signed_in)))
    × (find 0 (refresh old_token (revoke 0 signed_in)).1 ≡ none)
unfolding find revoke save refresh_key str_of
refresh_reuse_example = refresh_reuse 0 old_token (revoke 0 signed_in) old_RefreshOf (λ e. cc)

abbrev new_token : String
new_token = create_token 0 "kim" roles refresh_type 1000

abbrev response : TokenResponse
response = record {
  access_token = create_token 0 "kim" roles access 1000;
  refresh_token = new_token;
  access_ttl = access_ttl_seconds;
  refresh_ttl = refresh_ttl_seconds;
}

first_refresh :
    refresh old_token signed_in ≡ (ok response, save 0 new_token refresh_ttl_seconds signed_in)
unfolding refresh issue_token_pair parse_token create_token read_claims matches find save
    refresh_key str_of int_of ttl role_value access_ttl_seconds refresh_ttl_seconds payload_of
first_refresh = refl

new_ne_old : new_token ≢ old_token
unfolding create_token str_of ttl
new_ne_old e = cc ((eq_iff new_token old_token).1 e)

old_RefreshOf_later : RefreshOf 0 old_token 1100
unfolding create_token str_of int_of ttl
old_RefreshOf_later = record { claims = old_claims; decoded = refl; typed = refl; subject = refl }

refresh_rotates_example :
    let w' = save 0 new_token refresh_ttl_seconds signed_in in
    (refresh old_token (at 1100 w')
      ≡ (err (business auth_refresh_not_found), revoke 0 (at 1100 w')))
    × (find 0 (refresh old_token (at 1100 w')).1 ≡ none)
unfolding save
refresh_rotates_example =
    refresh_rotates 0 old_token signed_in (save 0 new_token refresh_ttl_seconds signed_in) response
      1100 old_RefreshOf first_refresh new_ne_old old_RefreshOf_later

abbrev kim : User
kim = user "kim" admin

-- The live token of kim, issued now.
abbrev just_signed_in : World
just_signed_in = save 0 new_token refresh_ttl_seconds (record blank { users = some kim ∷ [] })

new_RefreshOf : RefreshOf 0 new_token 1000
unfolding create_token str_of int_of ttl
new_RefreshOf = record {
  claims = record {
    iss = "rooti";
    sub = "0";
    iat = 1000;
    exp = 1210600;
    usn = "kim";
    roles = roles;
    typ = "REFRESH";
  };
  decoded = refl;
  typed = refl;
  subject = refl;
}

new_token_live : matches 0 new_token just_signed_in ≡ true
unfolding matches find save refresh_key str_of create_token ttl refresh_ttl_seconds
new_token_live = refl

refresh_same_second_example :
    (answer : TokenResponse) × (refresh new_token just_signed_in
      ≡ (ok answer, save 0 new_token refresh_ttl_seconds just_signed_in))
    × (answer.refresh_token ≡ new_token)
unfolding role_value save
refresh_same_second_example =
    refresh_same_second 0 kim just_signed_in refl refl new_RefreshOf new_token_live

abbrev lee : User
lee = record (user "lee" admin) { password_hash = sample.hashpw (to_bcrypt_input "secret123") 5 }

abbrev lee_known : World
lee_known = record blank { users = some lee ∷ [] }

abbrev lee_tokens : TokenResponse
lee_tokens = record {
  access_token = create_token 0 "lee" roles access 1000;
  refresh_token = create_token 0 "lee" roles refresh_type 1000;
  access_ttl = access_ttl_seconds;
  refresh_ttl = refresh_ttl_seconds;
}

abbrev lee_request : LoginRequest
lee_request = record { username = "lee"; password = "secret123"; fcm_token = none }

abbrev lee_signed_in : World
lee_signed_in =
    save 0 lee_tokens.refresh_token refresh_ttl_seconds
      (record blank { users = some (record lee { last_login_at = some 1000 }) ∷ [] })

lee_login : login lee_request lee_known ≡ (ok lee_tokens, lee_signed_in)
unfolding login login_writes mark_logged_in issue_token_pair create_token save refresh_key str_of
    ttl role_value access_ttl_seconds refresh_ttl_seconds verify_password to_bcrypt_input
lee_login = refl

login_sound_example :
    (user_id : ℕ) × (u : User) × (sql.get user_id lee_known.users ≡ some u)
    × (str_eq u.username "lee" ≡ true)
    × (u.enabled ≡ true)
    × (verify_password "secret123" u.password_hash ≡ true)
login_sound_example = login_sound lee_request lee_known lee_signed_in lee_tokens lee_login

abbrev lee_changed : World
lee_changed = revoke 0 (record blank {
  users = some (record lee { password_hash = sample.hashpw (to_bcrypt_input "secret456") 7 }) ∷ [];
  entropy = 8;
})

lee_change : change_password 0 "secret123" "secret456" lee_known ≡ (ok tt, lee_changed)
unfolding change_password hash_password revoke refresh_key str_of verify_password to_bcrypt_input
lee_change = refl

change_password_ends_session_example :
    (refresh old_token (at 1000 lee_changed)).0 ≡ err (business auth_refresh_not_found)
change_password_ends_session_example =
    change_password_ends_session 0 "secret123" "secret456" old_token lee_known lee_changed 1000
      old_RefreshOf lee_change
