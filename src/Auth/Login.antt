-- ===== src/Auth/Login.antt =====
-- Who gets a session: login and signup.
use rooti_server.Base.{ℕ, ◌≡◌, inl, inr, true, some, arith, str_eq}
use rooti_server.Exec.{ok}
use rooti_server.Sql.{Sql}
use rooti_server.Sql.Query.{scalar_one_or_none, OneOrNone-cases, one-one}
use rooti_server.Redis.{Redis}
use rooti_server.Crypto.{Crypto}
use rooti_server.Models.{User}
use rooti_server.World.{World}
use rooti_server.Security.{Settings, verify_password}
use rooti_server.Auth.{LoginRequest, TokenResponse, login}

module _ ⦃sql : Sql⦄ ⦃redis : Redis⦄ ⦃crypto : Crypto⦄ ⦃settings : Settings⦄ where
  -- A login that succeeds names the row of an enabled user whose stored hash checks with the password.
  pub login_sound :
      (req : LoginRequest) (w w' : World) (response : TokenResponse)
      → login req w ≡ (ok response, w')
      → (user_id : ℕ) × (user : User) × (sql.get user_id w.users ≡ some user)
        × (str_eq user.username req.username ≡ true)
        × (user.enabled ≡ true)
        × (verify_password req.password user.password_hash ≡ true)
  unfolding login
  login_sound req w w' response h =
      let p = λ (k : ℕ) (u : User). str_eq u.username req.username in
      elim (OneOrNone-cases (scalar_one_or_none (sql.select p w.users))) [
        | inl e ↦ ground arith
        | inr rest ↦ elim rest [
          | inl (row, e) ↦
              let found = one-one p w.users row.0 row.1 e in
              (row.0, row.1, found.0, found.1, ground arith, ground arith)
          | inr e ↦ ground arith
        ]
      ]
