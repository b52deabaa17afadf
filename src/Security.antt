-- ===== src/Security.antt =====
-- app/core/security.py: password hashing, token issue and parsing, and the current user; and the
-- settings of app/core/config.py that they read.
use Prim.Native.Char.{code}
use rooti_server.Base.{
  ℕ, ◌+◌, ◌*◌, ◌/◌, ◌%◌, Bool, false, not, ◌||◌, Option, none, some, List, [], ◌∷◌, ◌++◌, take,
  String, str_eq, ltb, ◌==◌, if◌then◌else◌,
}
use rooti_server.Errors.{business, auth_token_expired, auth_token_invalid}
use rooti_server.Exec.{Exec, pure, raise, raise_if, or_raise, ◌>>=◌, ◌>>◌}
use rooti_server.Crypto.{Crypto, Claims, valid, expired, malformed}
use rooti_server.Text.{truthy, strip}
use rooti_server.Text.Decimal.{str_of, int_of}

pub record Settings : Type 0 where
  pub jwt_issuer : String
  pub jwt_secret : String
  pub jwt_access_ttl_minutes : ℕ
  pub jwt_refresh_ttl_days : ℕ
  pub app_read_only : Bool
  pub multipart_max_file_bytes : ℕ

pub data TokenType : Type 0 where
  access refresh : TokenType

abbrev pub type_name : TokenType → String
type_name access = "ACCESS"
type_name refresh = "REFRESH"

-- UTF-8 of one code point
abbrev utf8 : ℕ → List ℕ
utf8 c =
    if ltb c 0x80
    then c ∷ []
    else if ltb c 0x800
    then (0xc0 + c / 64) ∷ (0x80 + c % 64) ∷ []
    else if ltb c 0x10000
    then (0xe0 + c / 4096) ∷ (0x80 + c / 64 % 64) ∷ (0x80 + c % 64) ∷ []
    else (0xf0 + c / 262144) ∷ (0x80 + c / 4096 % 64) ∷ (0x80 + c / 64 % 64) ∷ (0x80 + c % 64) ∷ []

-- `plain.encode("utf-8")`
pub encode_utf8 : String → List ℕ
encode_utf8 String.[] = []
encode_utf8 (String.◌∷◌ c s) = utf8 (code c) ++ encode_utf8 s

abbrev bcrypt_max_bytes : ℕ
bcrypt_max_bytes = 72

unfoldable pub to_bcrypt_input : String → List ℕ
unfolding encode_utf8
to_bcrypt_input plain = take bcrypt_max_bytes (encode_utf8 plain)

pub record JwtPayload : Type 0 where
  pub user_id : ℕ
  pub username : String
  pub roles : List String
  pub token_type : String
  pub issued_at : ℕ
  pub expires_at : ℕ

pub record PrincipalDetails : Type 0 where
  pub user_id : ℕ
  pub username : String
  pub roles : List String

-- `s` after the prefix, if it has that.
strip_prefix : String → String → Option String
strip_prefix String.[] s = some s
strip_prefix (String.◌∷◌ p ps) String.[] = none
strip_prefix (String.◌∷◌ p ps) (String.◌∷◌ c s) =
    if code p == code c then strip_prefix ps s else none

-- `s.removeprefix("ROLE_")`
unfoldable pub bare_role : String → String
unfolding strip_prefix
bare_role role = elim (strip_prefix "ROLE_" role) [ none ↦ role | some bare ↦ bare ]

abbrev any : {A : Type 0} → (A → Bool) → List A → Bool
any p [] = false
any p (x ∷ xs) = p x || any p xs

-- `PrincipalDetails.has_role`
unfoldable pub has_role : PrincipalDetails → String → Bool
has_role me role = any (λ r. str_eq (bare_role r) (bare_role role)) me.roles

-- The headers and the cookie of a request that may carry a token.
pub record Request : Type 0 where
  pub authorization : Option String
  pub accesstoken_header : Option String
  pub access_token_cookie : Option String

-- `if value: return value.strip()`, and else what follows
abbrev stripped_or : Option String → Option String → Option String
stripped_or none rest = rest
stripped_or (some value) rest = if truthy value then some (strip value) else rest

abbrev bearer_or : Option String → Option String → Option String
bearer_or none rest = rest
bearer_or (some header) rest = elim (strip_prefix "Bearer " header) [
  | none ↦ rest
  | some token ↦ some (strip token)
]

-- `_resolve_bearer_token`: the bearer header, then the legacy header, then the legacy cookie.
unfoldable pub resolve_bearer_token : Request → Option String
unfolding strip_prefix
resolve_bearer_token request =
    bearer_or request.authorization
      (stripped_or request.accesstoken_header (stripped_or request.access_token_cookie none))

principal_of : JwtPayload → PrincipalDetails
principal_of payload = record {
  user_id = payload.user_id;
  username = payload.username;
  roles = payload.roles;
}

module _ ⦃crypto : Crypto⦄ where
  unfoldable pub verify_password : String → String → Bool
  verify_password plain hashed = elim (crypto.checkpw (to_bcrypt_input plain) hashed) [
    | none ↦ false
    | some matches ↦ matches
  ]

module _ ⦃settings : Settings⦄ where
  unfoldable pub access_ttl_seconds : ℕ
  access_ttl_seconds = settings.jwt_access_ttl_minutes * 60

  unfoldable pub refresh_ttl_seconds : ℕ
  refresh_ttl_seconds = settings.jwt_refresh_ttl_days * 86400

  -- `int(ttl.total_seconds())` of `create_token`
  unfoldable pub ttl : TokenType → ℕ
  ttl access = settings.jwt_access_ttl_minutes * 60
  ttl refresh = settings.jwt_refresh_ttl_days * 86400

  -- The payload of `create_token`.
  abbrev pub token_claims : ℕ → String → List String → TokenType → ℕ → Claims
  token_claims user_id username roles token_type now = record {
    iss = settings.jwt_issuer;
    sub = str_of user_id;
    iat = now;
    exp = now + ttl token_type;
    usn = username;
    roles = roles;
    typ = type_name token_type;
  }

module _ ⦃crypto : Crypto⦄ ⦃settings : Settings⦄ where
  -- `create_token` at the time `now`
  unfoldable pub create_token : ℕ → String → List String → TokenType → ℕ → String
  create_token user_id username roles token_type now =
      crypto.encode (token_claims user_id username roles token_type now) settings.jwt_secret

  unfoldable pub payload_of : Claims → ℕ → JwtPayload
  payload_of claims user_id = record {
    user_id = user_id;
    username = claims.usn;
    roles = claims.roles;
    token_type =
        if str_eq claims.typ "ACCESS" || str_eq claims.typ "REFRESH" then claims.typ else "ACCESS";
    issued_at = claims.iat;
    expires_at = claims.exp;
  }

  module _ {W : Type 0} where
    -- What follows `jwt.decode` in `parse_token`: the type, then the subject.
    unfoldable pub read_claims : Claims → TokenType → Exec W JwtPayload
    read_claims claims expected = do
      raise_if (not (str_eq claims.typ (type_name expected))) (business auth_token_invalid)
      user_id ← or_raise (int_of claims.sub) (business auth_token_invalid)
      pure (payload_of claims user_id)

    -- `parse_token(token, expected_type=expected)` at the time `now`
    unfoldable pub parse_token : String → TokenType → ℕ → Exec W JwtPayload
    parse_token token expected now =
        elim (crypto.decode token settings.jwt_secret settings.jwt_issuer now) [
          | valid claims ↦ read_claims claims expected
          | expired ↦ raise (business auth_token_expired)
          | malformed ↦ raise (business auth_token_invalid)
        ]

    -- `current_user`: a request without a token and one with a bad token both get 401.
    unfoldable pub current_user : Request → ℕ → Exec W PrincipalDetails
    unfolding principal_of
    current_user request now = elim (resolve_bearer_token request) [
      | none ↦ raise (business auth_token_invalid)
      | some token ↦
          if truthy token
          then (do payload ← parse_token token access now; pure (principal_of payload))
          else raise (business auth_token_invalid)
    ]
