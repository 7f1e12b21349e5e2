-- ===== src/Auth/Login.antt =====
-- internal/service/auth/auth.go: Login.
use auth_service.Prelude.{
  ℕ, ◌+◌, Text, Option, none, some, List, [], ◌∷◌, bytes, Bool, false, if◌then◌else◌,
}
use auth_service.Models.{User, Session}
use auth_service.Context.{Context, extract_client_info}
use auth_service.Token
use auth_service.Password
use auth_service.Validate.{check_email}
use auth_service.Bruteforce.{Limits, is_locked, record_failure, reset}
use auth_service.Ports.{
  Error, Result, ok, err, is_user_not_found, login_blocked, login_failure, login_success,
}
use auth_service.Auth.Monad.{
  Deps, State, unauthenticated, resource_exhausted, Action, pure, fail, case, read, on_users,
  on_sessions, on_guard, ◌>>=◌, ◌>>◌,
}
use auth_service.Auth.Helpers.{valid, internal_error, log_audit, fire_hook, cache_session}

pub record LoginRequest : Type 0 where
  pub email : Text
  pub password : Text
  pub device_id : Text

-- The reply of Login and of RefreshToken.
pub record Tokens : Type 0 where
  pub access_token : Text
  pub refresh_token : Text

-- []string{"user"}
abbrev pub user_roles : List Text
user_roles = bytes "user" ∷ []

-- An error of the guard is logged, and counts as false.
abbrev pub answer : Result Error Bool → Bool
answer (ok b) = b
answer (err e) = false

abbrev pub or_default : Text → Text → Text
or_default [] b = b
or_default (c ∷ a) b = c ∷ a

-- if s.bruteGuard != nil
abbrev pub guarded :
    {S A : Type 0} → Option Limits → Action S A → (Limits → Action S A) → Action S A
guarded none m f = m
guarded (some l) m f = f l

module _ (d : Deps) where
  -- bruteGuard.IsLocked where there is a guard
  unfoldable pub check_locked : Text → Action (State d) Bool
  check_locked email =
      guarded d.brute_guard (pure false)
        λ l. do t ← read; r ← on_guard (is_locked d.redis l t.now email); pure (answer r)

  -- bruteGuard.RecordFailure where there is a guard
  unfoldable pub count_failure : Text → Action (State d) Bool
  count_failure email =
      guarded d.brute_guard (pure false)
        λ l. do t ← read; r ← on_guard (record_failure d.redis l t.now email); pure (answer r)

  -- bruteGuard.Reset where there is a guard
  unfoldable pub clear_failures : Text → Action (State d) (Unit {0})
  clear_failures email =
      guarded d.brute_guard (pure tt) (λ l. on_guard (λ g. (tt, reset d.redis l email g)))

  -- The answer to a locked account.
  unfoldable pub refuse_locked :
      Text → Text → Text → Text → Option Text → Text → Action (State d) Tokens
  refuse_locked email ip ua hook_email user_id hook_id = do
    log_audit d user_id login_blocked ip ua ((bytes "email", email) ∷ [])
    fire_hook d hook_id hook_email login_blocked ip ua ((bytes "email", email) ∷ [])
    fail resource_exhausted
        "account temporarily locked due to too many failed attempts, try again later"

  -- The answer to wrong credentials.
  unfoldable pub refuse_credentials :
      Text → Text → Text → Text → Option Text → Text → Action (State d) Tokens
  refuse_credentials email ip ua hook_email user_id hook_id = do
    log_audit d user_id login_failure ip ua ((bytes "email", email) ∷ [])
    fire_hook d hook_id hook_email login_failure ip ua ((bytes "email", email) ∷ [])
    fail unauthenticated "invalid credentials"

  -- The session that Login creates, before the store fills it in.
  abbrev pub new_session : Text → Text → Text → Text → Text → ℕ → Session
  new_session user_id token_hash device_id ua ip expires_at = record {
    id = [];
    user_id = user_id;
    user_email = [];
    token_hash = token_hash;
    device_id = device_id;
    user_agent = ua;
    ip_address = ip;
    expires_at = expires_at;
    last_used_at = 0;
    created_at = 0;
  }

  -- Login from the creation of the session on.
  unfoldable pub store_session : User → Session → Tokens → Text → Text → Action (State d) Tokens
  store_session user sess tokens ip ua = do
    t ← read
    r ← on_sessions (d.session_store.create t sess)
    case r (λ _. internal_error d)
        λ stored. do
          cache_session d sess.token_hash (record {
            session_id = stored.id;
            user_id = user.id;
            user_email = user.email;
            device_id = sess.device_id;
            expires_at = stored.expires_at;
          })
          let meta =
              (bytes "email", user.email)
              ∷ (bytes "device_id", sess.device_id)
              ∷ (bytes "session_id", stored.id)
              ∷ []
          log_audit d (some user.id) login_success ip ua meta
          fire_hook d user.id user.email login_success ip ua meta
          pure tokens

  -- Login once the password has matched.
  unfoldable pub open_session : Text → Text → LoginRequest → User → Action (State d) Tokens
  open_session ip ua req user = do
    clear_failures req.email
    t₁ ← read
    case (d.token_mgr.generate_access_token t₁ user.id user.email user_roles)
        (λ _. internal_error d)
        λ access. do
          t₂ ← read
          case (Token.generate d.sha256 t₂) (λ _. internal_error d)
              λ refresh. do
                t₃ ← read
                store_session user
                    (new_session user.id refresh.1 (or_default req.device_id ua) ua ip
                      (t₃.now + d.refresh_ttl))
                    (record { access_token = access; refresh_token = refresh.0 }) ip ua

  -- Login once the account was found.
  unfoldable pub check_password_of : Text → Text → LoginRequest → User → Action (State d) Tokens
  check_password_of ip ua req user =
      case (Password.verify d.id_key req.password user.password_hash) (λ _. internal_error d)
        λ match. if match then open_session ip ua req user else (do
          was_locked ← count_failure req.email
          (if was_locked
              then refuse_locked req.email ip ua user.email (some user.id) user.id
              else refuse_credentials req.email ip ua user.email (some user.id) user.id))

  -- Login
  unfoldable pub login : Context → LoginRequest → Action (State d) Tokens
  login ctx req = do
    valid d (check_email req.email)
    let (ip, ua) = extract_client_info ctx
    locked ← check_locked req.email
    (if locked then refuse_locked req.email ip ua req.email none [] else (do
      r ← on_users (d.user_store.get_by_email req.email)
      case r
          (λ e.
            if is_user_not_found e
            then refuse_credentials req.email ip ua req.email none []
            else internal_error d)
          (check_password_of ip ua req)))
