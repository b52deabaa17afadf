-- ===== src/Auth/Tokens.antt =====
-- The tokens that are issued, read back by `parse_token` and `current_user`.
use rooti_server.Base.{
  String, ℕ, ◌+◌, ◌≤◌, ◌≡◌, refl, inl, inr, List, arith, leb, if◌then◌else◌, ◌⊎◌, Bool-cases,
}
use rooti_server.Errors.{business, auth_token_expired, auth_token_invalid}
use rooti_server.Exec.{Result, ok, err}
use rooti_server.Crypto.{Crypto, Decoded, valid, expired, malformed}
use rooti_server.Text.Decimal.{int_of-str_of}
use rooti_server.Security.{
  Settings, TokenType, access, refresh, type_name, ttl, token_claims, create_token, parse_token,
  read_claims, payload_of, JwtPayload,
}

module _ ⦃settings : Settings⦄ where
  -- The payload that `parse_token` finds in a token of its own server.
  abbrev pub issued : ℕ → String → List String → TokenType → ℕ → JwtPayload
  issued user_id username roles token_type now = record {
    user_id = user_id;
    username = username;
    roles = roles;
    token_type = type_name token_type;
    issued_at = now;
    expires_at = now + ttl token_type;
  }

module _ ⦃crypto : Crypto⦄ ⦃settings : Settings⦄ {W : Type 0} where
  read_issued :
      (user_id : ℕ) (username : String) (roles : List String) (token_type : TokenType) (now : ℕ)
      (w : W)
      → read_claims (token_claims user_id username roles token_type now) token_type w
        ≡ (ok (issued user_id username roles token_type now), w)
  unfolding read_claims payload_of
  read_issued user_id username roles access now w = rw int_of-str_of
  read_issued user_id username roles refresh now w = rw int_of-str_of

  read_other_type :
      (user_id : ℕ) (username : String) (roles : List String) (now : ℕ) (w : W)
      → read_claims (token_claims user_id username roles refresh now) access w
        ≡ (err (business auth_token_invalid), w)
  unfolding read_claims
  read_other_type user_id username roles now w = refl

  -- What `parse_token` says of a decoded token.
  abbrev after_decode : Decoded → TokenType → W → Result JwtPayload × W
  after_decode (valid claims) token_type w = read_claims claims token_type w
  after_decode expired token_type w = (err (business auth_token_expired), w)
  after_decode malformed token_type w = (err (business auth_token_invalid), w)

  parse_token_lem :
      (token : String) (token_type : TokenType) (now : ℕ) (w : W)
      → parse_token token token_type now w
        ≡ after_decode
            (crypto.decode token settings.jwt_secret settings.jwt_issuer now)
            token_type
            w
  unfolding parse_token
  parse_token_lem token token_type now w = ground arith

  -- A token that was issued for a user, parsed as the type that it has, gives that user back until
  -- its time to live is over; from then on it is reported as expired.
  pub parse_token-create_token :
      (user_id : ℕ) (username : String) (roles : List String) (token_type : TokenType)
      (now later : ℕ) (w : W)
      → now ≤ later
      → parse_token (create_token user_id username roles token_type now) token_type later w ≡ (
          if leb (now + ttl token_type) later
          then (err (business auth_token_expired), w)
          else (ok (issued user_id username roles token_type now), w))
  unfolding create_token
  parse_token-create_token user_id username roles token_type now later w h =
      let claims = token_claims user_id username roles token_type now in
      rw (parse_token_lem, crypto.decode-encode claims settings.jwt_secret later h)
        (elim (Bool-cases (leb (now + ttl token_type) later)) [
          | inl over ↦ rw over
          | inr fresh ↦ rw fresh (read_issued user_id username roles token_type now w)
        ])

  -- A refresh token, at any time from its issue on, is refused where an access token is asked for.
  pub refresh_is_no_access :
      (user_id : ℕ) (username : String) (roles : List String) (now later : ℕ) (w : W)
      → now ≤ later
      → (parse_token (create_token user_id username roles refresh now) access later w
          ≡ (err (business auth_token_expired), w))
        ⊎ (parse_token (create_token user_id username roles refresh now) access later w
            ≡ (err (business auth_token_invalid), w))
  unfolding create_token
  refresh_is_no_access user_id username roles now later w h =
      let claims = token_claims user_id username roles refresh now in
      rw (parse_token_lem, crypto.decode-encode claims settings.jwt_secret later h)
        (elim (Bool-cases (leb (now + ttl refresh) later)) [
          | inl over ↦ inl (rw over)
          | inr fresh ↦ inr (rw fresh (read_other_type user_id username roles now w))
        ])
