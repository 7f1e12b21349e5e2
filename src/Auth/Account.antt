-- ===== src/Auth/Account.antt =====
-- internal/service/auth/auth.go: Register, ValidateToken and ChangePassword.
use auth_service.Prelude.{Text, some, List, [], ◌∷◌, bytes, Bool, true, false, if◌then◌else◌}
use auth_service.Models.{User}
use auth_service.Context.{Context, extract_client_info}
use auth_service.Password
use auth_service.Validate.{check_email, check_password}
use auth_service.Ports.{
  Error, Result, ok, err, is_user_already_exists, Claims, register, password_change,
}
use auth_service.Auth.Monad.{
  Deps, State, already_exists, unauthenticated, Action, pure, fail, case, read, on_users,
  on_sessions, ◌>>=◌, ◌>>◌,
}
use auth_service.Auth.Helpers.{
  hash, valid, internal_error, log_audit, fire_hook, delete_each, extract_user_id,
}

pub record RegisterRequest : Type 0 where
  pub email : Text
  pub password : Text

pub record ValidateTokenResponse : Type 0 where
  pub valid : Bool
  pub user_id : Text
  pub roles : List Text

pub record ChangePasswordRequest : Type 0 where
  pub current_password : Text
  pub new_password : Text
  pub refresh_token : Text

-- token.Hash of the token whose session stays, or "" where none is given
abbrev pub keep_hash : (Text → Text) → Text → Text
keep_hash h [] = []
keep_hash h (c ∷ token) = h (c ∷ token)

abbrev claims_of : Result Error Claims → ValidateTokenResponse
claims_of (err e) = record { valid = false; user_id = []; roles = [] }
claims_of (ok c) = record { valid = true; user_id = c.user_id; roles = c.roles }

-- What a failed deletion returned is nil, and no session is taken from the cache then.
abbrev pub deleted : Result Error (List Text) → List Text
deleted (ok hs) = hs
deleted (err e) = []

module _ (d : Deps) where
  -- Register
  unfoldable pub register_user : Context → RegisterRequest → Action (State d) Text
  register_user ctx req = do
    valid d (check_email req.email)
    valid d (check_password d.is_letter d.is_digit req.password)
    t ← read
    case (Password.hash d.id_key t req.password) (λ _. internal_error d)
        λ h. do
          t' ← read
          r ← on_users (d.user_store.create t' req.email h)
          case r
              (λ e.
                if is_user_already_exists e
                then fail already_exists "email already registered"
                else internal_error d)
              λ user. do
                let (ip, ua) = extract_client_info ctx
                log_audit d (some user.id) register ip ua ((bytes "email", user.email) ∷ [])
                fire_hook d user.id user.email register ip ua ((bytes "email", user.email) ∷ [])
                pure user.id

  -- ValidateToken
  unfoldable pub validate_token : Text → Action (State d) ValidateTokenResponse
  validate_token token = do t ← read; pure (claims_of (d.token_mgr.validate_access_token t token))

  -- ChangePassword from the update of the password on.
  unfoldable pub replace_password :
      Context → ChangePasswordRequest → User → Text → Text → Action (State d) (Unit {0})
  replace_password ctx req user user_id new_hash = do
    t ← read
    r ← on_users (d.user_store.update_password_hash t user_id new_hash)
    case r (λ _. internal_error d)
        λ _. do
          let keep = keep_hash (hash d) req.refresh_token
          hs ← on_sessions (d.session_store.delete_all_by_user_id_except user_id keep)
          delete_each d (deleted hs)
          let (ip, ua) = extract_client_info ctx
          log_audit d (some user_id) password_change ip ua []
          fire_hook d user_id user.email password_change ip ua []

  -- ChangePassword
  unfoldable pub change_password : Context → ChangePasswordRequest → Action (State d) (Unit {0})
  change_password ctx req = do
    user_id ← extract_user_id d ctx
    valid d (check_password d.is_letter d.is_digit req.new_password)
    r ← on_users (d.user_store.get_by_id user_id)
    case r (λ _. internal_error d)
        λ user.
          case (Password.verify d.id_key req.current_password user.password_hash)
            (λ _. internal_error d)
            λ match.
              if match
              then (do
                t ← read
                case (Password.hash d.id_key t req.new_password) (λ _. internal_error d)
                    (replace_password ctx req user user_id))
              else fail unauthenticated "invalid credentials"
