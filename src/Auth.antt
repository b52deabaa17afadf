-- ===== src/Auth.antt =====
-- app/services/auth.py: the refresh-token store, token issue, login, refresh, logout, password
-- change, caregiver signup and the own profile.
pub mod Tokens
pub mod Sessions
pub mod Login
mod Tests
use Prim.Native.String.{◌++◌ as str_append}
use rooti_server.Base.{
  ℕ, Bool, true, false, not, ◌&&◌, Option, none, some, List, [], ◌∷◌, String, str_eq, opt_eq,
  is_none, ◌==◌, same, if◌then◌else◌,
}
use rooti_server.Errors.{
  business, auth_invalid_credentials, auth_account_disabled, auth_refresh_not_found, user_not_found,
  user_username_duplicated, user_email_duplicated,
}
use rooti_server.Exec.{Exec, pure, raise, gets, modify, raise_if, or_raise, ◌>>=◌, ◌>>◌}
use rooti_server.Sql.{Sql}
use rooti_server.Redis.{Redis}
use rooti_server.Crypto.{Crypto}
use rooti_server.Models.{User, ChallengedWorker, Caregiver}
use rooti_server.Models.Enums.{UserRole, admin, charger, worker, caregiver, UserRole-discrete}
use rooti_server.World.{World, users, workers, caregivers}
use rooti_server.World.Session.{db_get, add, write, query_first, query_one}
use rooti_server.Text.{truthy, opt_truthy, strip}
use rooti_server.Text.Decimal.{str_of}
use rooti_server.Security.{
  Settings, PrincipalDetails, access, refresh as refresh_type, create_token, parse_token,
  verify_password, to_bcrypt_input, access_ttl_seconds, refresh_ttl_seconds,
}

-- `UserRole.value`
unfoldable pub role_value : UserRole → String
role_value admin = "ADMIN"
role_value charger = "CHARGER"
role_value worker = "WORKER"
role_value caregiver = "CAREGIVER"

pub record LoginRequest : Type 0 where
  pub username : String
  pub password : String
  pub fcm_token : Option String

pub record CaregiverSignupRequest : Type 0 where
  pub username : String
  pub email : String
  pub password : String
  pub name : String
  pub phone_number : Option String

pub record UpdateMeRequest : Type 0 where
  pub name : String
  pub email : Option String
  pub phone_number : Option String

pub record TokenResponse : Type 0 where
  pub access_token : String
  pub refresh_token : String
  pub access_ttl : ℕ
  pub refresh_ttl : ℕ

pub record MeResponse : Type 0 where
  pub id : ℕ
  pub username : String
  pub email : Option String
  pub name : String
  pub phone_number : Option String
  pub role : UserRole

unfoldable pub me_response : ℕ → User → MeResponse
me_response id user = record {
  id = id;
  username = user.username;
  email = user.email;
  name = user.name;
  phone_number = user.phone_number;
  role = user.role;
}

-- `RefreshTokenStore._key`
unfoldable pub refresh_key : ℕ → String
refresh_key user_id = str_append "rooti:refresh:" (str_of user_id)

abbrev pub opt_str_eq : Option String → Option String → Bool
opt_str_eq none none = true
opt_str_eq none (some b) = false
opt_str_eq (some a) none = false
opt_str_eq (some a) (some b) = str_eq a b

module _ ⦃sql : Sql⦄ ⦃redis : Redis⦄ where
  -- `RefreshTokenStore.save`, `find`, `remove` and `matches`
  unfoldable pub save : ℕ → String → ℕ → World → World
  save user_id token ttl w = record w {
    store = redis.set (refresh_key user_id) token ttl w.now w.store;
  }

  unfoldable pub find : ℕ → World → Option String
  find user_id w = redis.get (refresh_key user_id) w.now w.store

  unfoldable pub revoke : ℕ → World → World
  revoke user_id w = record w { store = redis.del (refresh_key user_id) w.store }

  unfoldable pub matches : ℕ → String → World → Bool
  matches user_id token w = elim (find user_id w) [ none ↦ false | some s ↦ str_eq s token ]

  -- `AuthService._sync_fcm`
  pub sync_fcm : ℕ → User → String → Exec World (Unit {0})
  sync_fcm user_id user fcm_token =
      if not (same UserRole-discrete user.role worker) then pure tt else do
        found ← query_one workers (λ _ k. k.user_id == user_id)
        elim found [
          | none ↦ pure tt
          | some (id, k) ↦ write workers id (record k { fcm_token = some fcm_token })
        ]

  -- `User.mark_logged_in` on the row as the session holds it
  pub mark_logged_in : ℕ → Exec World (Unit {0})
  mark_logged_in user_id w = elim (sql.get user_id w.users) [
    | none ↦ pure tt w
    | some user ↦ write users user_id (record user { last_login_at = some w.now }) w
  ]

module _ ⦃sql : Sql⦄ ⦃redis : Redis⦄ ⦃crypto : Crypto⦄ ⦃settings : Settings⦄ where
  -- `hash_password`
  unfoldable pub hash_password : String → Exec World String
  hash_password plain = do
    entropy ← gets (λ w. w.entropy)
    modify (λ w. record w { entropy = ℕ.suc w.entropy })
    pure (crypto.hashpw (to_bcrypt_input plain) entropy)

  -- `issue_token_pair`
  unfoldable pub issue_token_pair : ℕ → User → Exec World TokenResponse
  issue_token_pair user_id user = do
    now ← gets (λ w. w.now)
    let roles = role_value user.role ∷ []
    let access_token = create_token user_id user.username roles access now
    let refresh_token = create_token user_id user.username roles refresh_type now
    modify (save user_id refresh_token refresh_ttl_seconds)
    pure (record {
      access_token = access_token;
      refresh_token = refresh_token;
      access_ttl = access_ttl_seconds;
      refresh_ttl = refresh_ttl_seconds;
    })

  -- The writes that go with a login.
  pub login_writes : ℕ → User → Option String → Exec World (Unit {0})
  unfolding sync_fcm mark_logged_in
  login_writes user_id user fcm_token = if settings.app_read_only then pure tt else do
    elim fcm_token [
      | none ↦ pure tt
      | some token ↦ if truthy (strip token) then sync_fcm user_id user (strip token) else pure tt
    ]
    mark_logged_in user_id

  pub login : LoginRequest → Exec World TokenResponse
  login req = do
    found ← query_one users (λ _ u. str_eq u.username req.username)
    (user_id, user) ← or_raise found (business auth_invalid_credentials)
    raise_if (not user.enabled) (business auth_account_disabled)
    raise_if (not (verify_password req.password user.password_hash))
        (business auth_invalid_credentials)
    login_writes user_id user req.fcm_token
    issue_token_pair user_id user

  -- The end of `refresh`, once the token matches the store.
  unfoldable pub refresh_user : ℕ → Exec World TokenResponse
  refresh_user user_id = do
    found ← db_get users user_id
    user ← or_raise found (business user_not_found)
    if not user.enabled
        then (do modify (revoke user_id); raise (business auth_refresh_not_found))
        else issue_token_pair user_id user

  pub refresh : String → Exec World TokenResponse
  unfolding refresh_user
  refresh refresh_token = do
    now ← gets (λ w. w.now)
    payload ← parse_token refresh_token refresh_type now
    matched ← gets (matches payload.user_id refresh_token)
    if not matched
        then (do modify (revoke payload.user_id); raise (business auth_refresh_not_found))
        else refresh_user payload.user_id

  pub logout : ℕ → Exec World (Unit {0})
  logout user_id = modify (revoke user_id)

  pub change_password : ℕ → String → String → Exec World (Unit {0})
  change_password user_id current new_password = do
    found ← db_get users user_id
    user ← or_raise found (business user_not_found)
    raise_if (not (verify_password current user.password_hash)) (business auth_invalid_credentials)
    hashed ← hash_password new_password
    write users user_id (record user { password_hash = hashed })
    modify (revoke user_id)

  pub signup_as_caregiver : CaregiverSignupRequest → Exec World TokenResponse
  signup_as_caregiver req = do
    same_name ← query_first users (λ _ u. str_eq u.username req.username)
    raise_if (not (is_none same_name)) (business user_username_duplicated)
    same_email ← query_first users (λ _ u. opt_str_eq u.email (some req.email))
    raise_if (not (is_none same_email)) (business user_email_duplicated)
    hashed ← hash_password req.password
    let user : User = record {
      username = req.username;
      email = some req.email;
      password_hash = hashed;
      name = req.name;
      phone_number = req.phone_number;
      role = caregiver;
      enabled = true;
      last_login_at = none;
    }
    user_id ← add users user
    add caregivers (record { user_id = user_id })
    issue_token_pair user_id user

  pub me : PrincipalDetails → Exec World MeResponse
  me principal = do
    found ← db_get users principal.user_id
    user ← or_raise found (business user_not_found)
    pure (me_response principal.user_id user)

  -- `if req.email is not None and req.email != user.email`: the new address, or 409
  new_email : ℕ → User → Option String → Exec World (Option String)
  new_email user_id user none = pure user.email
  new_email user_id user (some email) =
      if opt_str_eq user.email (some email) then pure user.email else do
        dup ← query_first users (λ id u. opt_str_eq u.email (some email) && not (id == user_id))
        raise_if (not (is_none dup)) (business user_email_duplicated)
        pure (some email)

  abbrev given : {A : Type 0} → Option A → Option A → Option A
  given none old = old
  given (some a) old = some a

  pub update_profile : ℕ → UpdateMeRequest → Exec World MeResponse
  unfolding new_email
  update_profile user_id req = do
    found ← db_get users user_id
    user ← or_raise found (business user_not_found)
    email ← new_email user_id user req.email
    let updated = record user {
      email = email;
      phone_number = given req.phone_number user.phone_number;
      name = req.name;
    }
    write users user_id updated
    pure (me_response user_id updated)
