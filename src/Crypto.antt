-- ===== src/Crypto.antt =====
-- PyJWT and bcrypt, which app/core/security.py only calls: signed tokens that expire, and salted
-- password hashes, with the documented behaviour that the services rely on.
pub mod Sample
use rooti_server.Base.{ℕ, ◌≤◌, ◌≡◌, Bool, true, Option, some, List, String, leb, if◌then◌else◌}

-- The payload that `create_token` writes.
pub record Claims : Type 0 where
  pub iss : String
  pub sub : String
  pub iat : ℕ
  pub exp : ℕ
  pub usn : String
  pub roles : List String
  pub typ : String

-- `jwt.decode` returns the claims, or raises `ExpiredSignatureError` or another `PyJWTError`.
pub data Decoded : Type 0 where
  valid : Claims → Decoded
  expired malformed : Decoded

pub record Crypto : Type 0 where
  -- `jwt.encode(claims, secret)`
  pub encode : Claims → String → String
  -- `jwt.decode(token, secret, issuer=issuer)` at a time, with the required claims
  pub decode : String → String → String → ℕ → Decoded
  -- `bcrypt.hashpw(input, gensalt())` for the salt that a source of entropy gives
  pub hashpw : List ℕ → ℕ → String
  -- `bcrypt.checkpw(input, hashed)`; `none` is `ValueError`
  pub checkpw : List ℕ → String → Option Bool
  -- a token of this secret and issuer is accepted from its issue until its expiry
  pub decode-encode :
      (claims : Claims) (secret : String) (now : ℕ)
      → claims.iat ≤ now
      → decode (encode claims secret) secret claims.iss now
        ≡ (if leb claims.exp now then expired else valid claims)
  -- a hash checks with the input that it was made from
  pub checkpw-hashpw :
      (input : List ℕ) (entropy : ℕ) → checkpw input (hashpw input entropy) ≡ some true
