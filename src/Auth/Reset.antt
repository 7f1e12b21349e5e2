-- ===== src/Auth/Reset.antt =====
-- internal/service/auth/auth.go: RequestPasswordReset, VerifyResetCode and ResetPassword.
use auth_service.Prelude.{ℕ, Text, some, [], ◌∷◌, bytes, leb, ◌==◌, if◌then◌else◌}
use auth_service.Models.{User}
use auth_service.Context.{Context, extract_client_info}
use auth_service.Token
use auth_service.Password
use auth_service.Validate.{check_email, check_password}
use auth_service.Ports.{
  Error, is_user_not_found, is_reset_code_not_found, is_reset_token_not_found, OtpRecord,
  ResetTokenRecord, password_reset_request, password_reset,
}
use auth_service.Auth.Account.{deleted}
use auth_service.Auth.Monad.{
  Deps, State, unauthenticated, Action, pure, fail, case, read, on_users, on_sessions, on_resets,
  ◌>>=◌, ◌>>◌,
}
use auth_service.Auth.Helpers.{hash, valid, internal_error, log_audit, fire_hook, delete_each}

-- 15 minutes
abbrev pub reset_ttl : ℕ
reset_ttl = 900000000000

abbrev pub max_otp_attempts : ℕ
max_otp_attempts = 5

pub record VerifyRequest : Type 0 where
  pub email : Text
  pub otp : Text

pub record ResetRequest : Type 0 where
  pub reset_token : Text
  pub new_password : Text

module _ (d : Deps) where
  -- RequestPasswordReset once the account was found.
  unfoldable pub issue_code : Context → Text → User → Action (State d) (Unit {0})
  issue_code ctx email user = do
    t ← read
    case (Token.generate_otp t) (λ _. internal_error d)
        λ code. do
          t' ← read
          r ← on_resets (d.reset_store.save_otp t' user.id email (hash d code) reset_ttl)
          case r (λ _. internal_error d)
              λ _. do
                let (ip, ua) = extract_client_info ctx
                log_audit d (some user.id) password_reset_request ip ua []
                fire_hook d user.id user.email password_reset_request ip ua
                    ((bytes "otp_code", code) ∷ [])

  -- RequestPasswordReset
  unfoldable pub request_password_reset : Context → Text → Action (State d) (Unit {0})
  request_password_reset ctx email = do
    valid d (check_email email)
    r ← on_users (d.user_store.get_by_email email)
    case r (λ e. if is_user_not_found e then pure tt else internal_error d) (issue_code ctx email)

  abbrev pub bad_code : {A : Type 0} → Error → Action (State d) A
  bad_code e =
      if is_reset_code_not_found e
      then fail unauthenticated "invalid or expired code"
      else internal_error d

  -- VerifyResetCode once the code has matched: the code goes, a reset token comes.
  unfoldable pub issue_reset_token : VerifyRequest → OtpRecord → Action (State d) Text
  issue_reset_token req otp = do
    _ ← on_resets (d.reset_store.delete_otp req.email)
    t ← read
    case (Token.generate d.sha256 t) (λ _. internal_error d)
        λ token. do
          t' ← read
          r ← on_resets (d.reset_store.save_reset_token t' token.1 otp.user_id req.email reset_ttl)
          case r (λ _. internal_error d) (λ _. pure token.0)

  -- VerifyResetCode once the attempt was counted.
  unfoldable pub judge_attempt : VerifyRequest → OtpRecord → ℕ → Action (State d) Text
  judge_attempt req otp attempts =
      if leb max_otp_attempts attempts
      then (do
        _ ← on_resets (d.reset_store.delete_otp req.email)
        fail unauthenticated "too many attempts")
      else if hash d req.otp == otp.otp_hash
      then issue_reset_token req otp
      else fail unauthenticated "invalid or expired code"

  -- VerifyResetCode
  unfoldable pub verify_reset_code : VerifyRequest → Action (State d) Text
  verify_reset_code req = do
    valid d (check_email req.email)
    t ← read
    r ← on_resets (d.reset_store.get_otp t req.email)
    case r bad_code λ otp. do
      t' ← read
      n ← on_resets (d.reset_store.incr_otp_attempts t' req.email)
      case n bad_code (judge_attempt req otp)

  -- ResetPassword from the update of the password on.
  unfoldable pub set_password : Context → ResetTokenRecord → Text → Action (State d) (Unit {0})
  set_password ctx token new_hash = do
    t ← read
    r ← on_users (d.user_store.update_password_hash t token.user_id new_hash)
    case r (λ _. internal_error d)
        λ _. do
          hs ← on_sessions (d.session_store.delete_all_by_user_id token.user_id)
          delete_each d (deleted hs)
          let (ip, ua) = extract_client_info ctx
          log_audit d (some token.user_id) password_reset ip ua []
          fire_hook d token.user_id token.email password_reset ip ua []

  -- ResetPassword once the token was found: the token goes before the password changes.
  unfoldable pub use_token : Context → ResetRequest → ResetTokenRecord → Action (State d) (Unit {0})
  use_token ctx req token = do
    gone ← on_resets (d.reset_store.delete_reset_token (hash d req.reset_token))
    case gone (λ _. internal_error d)
        λ _. do
          t ← read
          case (Password.hash d.id_key t req.new_password) (λ _. internal_error d)
              (set_password ctx token)

  abbrev pub bad_token : Error → Action (State d) (Unit {0})
  bad_token e =
      if is_reset_token_not_found e
      then fail unauthenticated "invalid or expired reset token"
      else internal_error d

  -- ResetPassword behind the check of the new password.
  unfoldable pub redeem : Context → ResetRequest → Action (State d) (Unit {0})
  redeem ctx req = do
    t ← read
    r ← on_resets (d.reset_store.get_reset_token t (hash d req.reset_token))
    case r bad_token (use_token ctx req)

  -- ResetPassword
  unfoldable pub reset_password : Context → ResetRequest → Action (State d) (Unit {0})
  reset_password ctx req = do
    valid d (check_password d.is_letter d.is_digit req.new_password)
    redeem ctx req
