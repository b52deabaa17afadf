-- ===== src/Auth/Sessions.antt =====
-- The life of a refresh token: rotation, detection of reuse, and revocation.
use rooti_server.Base.{
  String, ℕ, suc, ◌+◌, ◌≡◌, ◌≢◌, refl, sym, ◌∙◌, ap, inl, inr, true, false, none, some, [], ◌∷◌,
  arith, ltb, str_eq, eq_iff, if◌then◌else◌, Bool-cases, Option-cases,
}
use text.Mathlib.TextPositions.{eq_refl}
use rooti_server.Errors.{business, auth_refresh_not_found}
use rooti_server.Exec.{ok, err}
use rooti_server.Sql.{Sql}
use rooti_server.Redis.{Redis}
use rooti_server.Crypto.{Crypto, Claims, valid}
use rooti_server.Models.{User}
use rooti_server.World.{World}
use rooti_server.Text.Decimal.{int_of}
use rooti_server.Security.{
  Settings, access, refresh as refresh_type, create_token, parse_token, read_claims, payload_of,
  access_ttl_seconds, refresh_ttl_seconds, to_bcrypt_input,
}
use rooti_server.Auth.{
  TokenResponse, role_value, refresh_key, save, find, revoke, matches, hash_password,
  issue_token_pair, refresh_user, refresh, logout, change_password,
}

module _ ⦃sql : Sql⦄ ⦃redis : Redis⦄ where
  find-revoke : (user_id : ℕ) (w : World) → find user_id (revoke user_id w) ≡ none
  unfolding find revoke
  find-revoke user_id w = ground (
    arith,
    redis.get-del (refresh_key user_id) w.store (refresh_key user_id) w.now,
    eq_refl (refresh_key user_id),
  )

  -- The world at another time.
  abbrev pub at : ℕ → World → World
  at later w = record w { now = later }

  -- The token that was saved for a user is found until its time to live is over.
  find-save :
      (user_id : ℕ) (token : String) (ttl later : ℕ) (w : World)
      → find user_id (at later (save user_id token ttl w))
        ≡ (if ltb later (w.now + ttl) then some token else none)
  unfolding find save
  find-save user_id token ttl later w = ground (
    arith,
    redis.get-set (refresh_key user_id) token ttl w.now w.store (refresh_key user_id) later,
    eq_refl (refresh_key user_id),
  )

  matches-save :
      (user_id : ℕ) (token other : String) (ttl later : ℕ) (w : World)
      → token ≢ other
      → matches user_id other (at later (save user_id token ttl w)) ≡ false
  unfolding matches
  matches-save user_id token other ttl later w h =
      ground (arith, find-save user_id token ttl later w, eq_iff token other)

  matches-ne :
      (user_id : ℕ) (token : String) (w : World)
      → find user_id w ≢ some token
      → matches user_id token w ≡ false
  unfolding matches
  matches-ne user_id token w h = elim (Option-cases (find user_id w)) [
    | inl e ↦ rw (e, matches)
    | inr (s, e) ↦ elim (Bool-cases (str_eq s token)) [
      | inl same ↦ absurd (h (e ∙ ap some ((eq_iff s token).0 same)))
      | inr differ ↦ rw (e, matches) differ
    ]
  ]

  matches-revoke :
      (user_id : ℕ) (token : String) (later : ℕ) (w : World)
      → matches user_id token (at later (revoke user_id w)) ≡ false
  unfolding matches revoke find
  matches-revoke user_id token later w = ground (
    arith,
    redis.get-del (refresh_key user_id) w.store (refresh_key user_id) later,
    eq_refl (refresh_key user_id),
  )

module _ ⦃sql : Sql⦄ ⦃redis : Redis⦄ ⦃crypto : Crypto⦄ ⦃settings : Settings⦄ where
  -- A token that `jwt.decode` accepts at a time as a refresh token of a user.
  pub record RefreshOf (user_id : ℕ) (token : String) (now : ℕ) : Type 0 where
    pub claims : Claims
    pub decoded : crypto.decode token settings.jwt_secret settings.jwt_issuer now ≡ valid claims
    pub typed : claims.typ ≡ "REFRESH"
    pub subject : int_of claims.sub ≡ some user_id

  pub refresh_stale :
      (user_id : ℕ) (token : String) (w : World)
      → RefreshOf user_id token w.now
      → matches user_id token w ≡ false
      → refresh token w ≡ (err (business auth_refresh_not_found), revoke user_id w)
  unfolding refresh parse_token read_claims payload_of
  refresh_stale user_id token w r e =
      ground (arith, r.decoded, r.typed, r.subject, eq_iff r.claims.typ "REFRESH")

  pub refresh_live :
      (user_id : ℕ) (token : String) (w : World)
      → RefreshOf user_id token w.now
      → matches user_id token w ≡ true
      → refresh token w ≡ refresh_user user_id w
  unfolding refresh parse_token read_claims payload_of
  refresh_live user_id token w r e =
      ground (arith, r.decoded, r.typed, r.subject, eq_iff r.claims.typ "REFRESH")

  -- What a refresh that succeeds leaves in the world.
  refresh_user_saves :
      (user_id : ℕ) (w w' : World) (response : TokenResponse)
      → refresh_user user_id w ≡ (ok response, w')
      → w' ≡ save user_id response.refresh_token refresh_ttl_seconds w
  unfolding refresh_user issue_token_pair
  refresh_user_saves user_id w w' response h = ground arith

  refresh_ok_saves :
      (user_id : ℕ) (token : String) (w w' : World) (response : TokenResponse)
      → RefreshOf user_id token w.now
      → refresh token w ≡ (ok response, w')
      → w' ≡ save user_id response.refresh_token refresh_ttl_seconds w
  refresh_ok_saves user_id token w w' response r h = elim (Bool-cases (matches user_id token w)) [
    | inl e ↦ refresh_user_saves user_id w w' response (sym (refresh_live user_id token w r e) ∙ h)
    | inr e ↦ cc (refresh_stale user_id token w r e)
  ]

  change_password_revokes :
      (user_id : ℕ) (current new_password : String) (w w' : World)
      → change_password user_id current new_password w ≡ (ok tt, w')
      → (u : World) × (w' ≡ revoke user_id u)
  unfolding change_password hash_password
  change_password_revokes user_id current new_password w w' h =
      elim (Option-cases (sql.get user_id w.users)) [
        | inl e ↦ ground arith
        | inr (user, e) ↦
            let hashed = crypto.hashpw (to_bcrypt_input new_password) w.entropy in
            let row = record user { password_hash = hashed } in
            (
              record w { users = sql.update user_id row w.users; entropy = suc w.entropy },
              ground arith,
            )
      ]

  -- Reuse detection: a refresh token that is valid but is not the one in the store is refused, and
  -- the session that the store holds for its user is revoked.
  pub refresh_reuse :
      (user_id : ℕ) (token : String) (w : World)
      → RefreshOf user_id token w.now
      → find user_id w ≢ some token
      → (refresh token w ≡ (err (business auth_refresh_not_found), revoke user_id w))
        × (find user_id (refresh token w).1 ≡ none)
  refresh_reuse user_id token w r stale =
      let refused = refresh_stale user_id token w r (matches-ne user_id token w stale) in
      (refused, ap (λ x. find user_id x.1) refused ∙ find-revoke user_id w)

  -- Rotation: after a refresh that answers with another token, the token that was used is refused at
  -- any later time at which it is still valid, and that attempt ends the session.
  pub refresh_rotates :
      (user_id : ℕ) (token : String) (w w' : World) (response : TokenResponse) (later : ℕ)
      → RefreshOf user_id token w.now
      → refresh token w ≡ (ok response, w')
      → response.refresh_token ≢ token
      → RefreshOf user_id token later
      → (refresh token (at later w')
          ≡ (err (business auth_refresh_not_found), revoke user_id (at later w')))
        × (find user_id (refresh token (at later w')).1 ≡ none)
  refresh_rotates user_id token w w' response later r h other r' =
      let saved = refresh_ok_saves user_id token w w' response r h in
      let stale : matches user_id token (at later w') ≡ false =
        rw saved
          (matches-save user_id response.refresh_token token refresh_ttl_seconds later w other) in
      let refused = refresh_stale user_id token (at later w') r' stale in
      (refused, ap (λ x. find user_id x.1) refused ∙ find-revoke user_id (at later w'))

  -- After a logout, a refresh token of the user that is still valid is refused, whenever it comes, and
  -- no token is live after the attempt.
  pub logout_ends_session :
      (user_id : ℕ) (token : String) (w : World) (later : ℕ)
      → RefreshOf user_id token later
      → refresh token (at later (logout user_id w).1)
        ≡ (err (business auth_refresh_not_found), revoke user_id (at later (revoke user_id w)))
  unfolding logout
  logout_ends_session user_id token w later r =
      refresh_stale user_id token (at later (revoke user_id w)) r
        (matches-revoke user_id token later w)

  -- After a password change that succeeds, a refresh token of the user that is still valid is refused,
  -- whenever it comes.
  pub change_password_ends_session :
      (user_id : ℕ) (current new_password token : String) (w w' : World) (later : ℕ)
      → RefreshOf user_id token later
      → change_password user_id current new_password w ≡ (ok tt, w')
      → (refresh token (at later w')).0 ≡ err (business auth_refresh_not_found)
  change_password_ends_session user_id current new_password token w w' later r h =
      let (u, revoked) = change_password_revokes user_id current new_password w w' h in
      ap (λ x. x.0)
        (refresh_stale user_id token (at later w') r
          (rw revoked (matches-revoke user_id token later u)))

  -- The refresh token that is issued for a user now.
  abbrev pub token_now : ℕ → User → World → String
  token_now user_id user w =
      create_token user_id user.username (role_value user.role ∷ []) refresh_type w.now

  -- A refresh in the second in which its token was issued answers with that same token, which stays
  -- the live one: nothing rotates. The user exists and is enabled, and the token is the live one.
  pub refresh_same_second :
      (user_id : ℕ) (user : User) (w : World)
      → sql.get user_id w.users ≡ some user
      → user.enabled ≡ true
      → RefreshOf user_id (token_now user_id user w) w.now
      → matches user_id (token_now user_id user w) w ≡ true
      → (response : TokenResponse) × (refresh (token_now user_id user w) w
          ≡ (ok response, save user_id (token_now user_id user w) refresh_ttl_seconds w))
        × (response.refresh_token ≡ token_now user_id user w)
  unfolding refresh_user issue_token_pair
  refresh_same_second user_id user w found enabled r live =
      let roles = role_value user.role ∷ [] in
      let token = create_token user_id user.username roles refresh_type w.now in
      (
        record {
          access_token = create_token user_id user.username roles access w.now;
          refresh_token = token;
          access_ttl = access_ttl_seconds;
          refresh_ttl = refresh_ttl_seconds;
        },
        ground (arith, refresh_live user_id token w r live),
        refl,
      )
