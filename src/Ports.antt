-- ===== src/Ports.antt =====
-- The interfaces of internal/domain/ports: the records that cross them, the errors that callers
-- tell apart, and each interface as a record of operations on a backend's state.
pub mod Laws
use auth_service.Prelude.{ℕ, Text, Option, List, Bool, true, false}
use auth_service.Models.{User, Session, Stamp}

-- The sentinel errors, and every other error with its text.
pub data Error : Type 0 where
  user_not_found user_already_exists session_not_found : Error
  reset_code_not_found reset_token_not_found : Error
  other : Text → Error

-- A Go pair of a value and an error, of which one is set.
pub data Result {ℓ κ} (E : Type ℓ) (A : Type κ) : Type (ℓ ⊔ κ) where
  ok : A → Result E A
  err : E → Result E A

abbrev pub is_ok {ℓ κ} : {E : Type ℓ} {A : Type κ} → Result E A → Bool
is_ok (ok a) = true
is_ok (err e) = false

-- errors.Is(err, ports.ErrUserNotFound)
abbrev pub is_user_not_found : Error → Bool
is_user_not_found user_not_found = true
is_user_not_found _ = false

-- errors.Is(err, ports.ErrUserAlreadyExists)
abbrev pub is_user_already_exists : Error → Bool
is_user_already_exists user_already_exists = true
is_user_already_exists _ = false

-- errors.Is(err, ports.ErrSessionNotFound)
abbrev pub is_session_not_found : Error → Bool
is_session_not_found session_not_found = true
is_session_not_found _ = false

-- errors.Is(err, ports.ErrResetCodeNotFound)
abbrev pub is_reset_code_not_found : Error → Bool
is_reset_code_not_found reset_code_not_found = true
is_reset_code_not_found _ = false

-- errors.Is(err, ports.ErrResetTokenNotFound)
abbrev pub is_reset_token_not_found : Error → Bool
is_reset_token_not_found reset_token_not_found = true
is_reset_token_not_found _ = false

-- ports.CachedSession
pub record CachedSession : Type 0 where
  pub session_id : Text
  pub user_id : Text
  pub user_email : Text
  pub device_id : Text
  pub expires_at : ℕ

-- ports.OTPRecord
pub record OtpRecord : Type 0 where
  pub user_id : Text
  pub otp_hash : Text
  pub attempts : ℕ

-- ports.ResetTokenRecord
pub record ResetTokenRecord : Type 0 where
  pub user_id : Text
  pub email : Text

-- ports.Claims
pub record Claims : Type 0 where
  pub user_id : Text
  pub email : Text
  pub roles : List Text

-- ports.AuditEventType
pub data EventType : Type 0 where
  register login_success login_failure login_blocked logout logout_all : EventType
  token_refresh session_revoke password_change password_reset_request password_reset : EventType

-- ports.AuditEvent
pub record AuditEvent : Type 0 where
  pub user_id : Option Text
  pub event_type : EventType
  pub ip_address : Text
  pub user_agent : Text
  pub metadata : List (Text × Text)

-- ports.HookEvent
pub record HookEvent : Type 0 where
  pub event_type : EventType
  pub user_id : Text
  pub user_email : Text
  pub ip_address : Text
  pub user_agent : Text
  pub metadata : List (Text × Text)

-- ports.UserStore over a backend with states `S`
pub record UserStore (S : Type 0) : Type 0 where
  pub create : Stamp → Text → Text → S → Result Error User × S
  pub get_by_email : Text → S → Result Error User × S
  pub get_by_id : Text → S → Result Error User × S
  pub update_password_hash : Stamp → Text → Text → S → Result Error (Unit {0}) × S

-- ports.SessionStore; the session that `create` and `rotate_token` fill in comes back
pub record SessionStore (S : Type 0) : Type 0 where
  pub create : Stamp → Session → S → Result Error Session × S
  pub get_by_token_hash : Stamp → Text → S → Result Error Session × S
  pub delete_by_id : Text → Text → S → Result Error Text × S
  pub delete_by_token_hash : Text → S → Result Error (Unit {0}) × S
  pub rotate_token : Stamp → Text → Session → S → Result Error Session × S
  pub delete_all_by_user_id : Text → S → Result Error (List Text) × S
  pub delete_all_by_user_id_except : Text → Text → S → Result Error (List Text) × S
  pub list_by_user_id : Text → S → Result Error (List Session) × S

-- ports.SessionCache
pub record SessionCache (S : Type 0) : Type 0 where
  pub set : Stamp → Text → CachedSession → ℕ → S → Result Error (Unit {0}) × S
  pub get : Stamp → Text → S → Result Error CachedSession × S
  pub delete : Text → S → Result Error (Unit {0}) × S

-- ports.PasswordResetStore
pub record PasswordResetStore (S : Type 0) : Type 0 where
  pub save_otp : Stamp → Text → Text → Text → ℕ → S → Result Error (Unit {0}) × S
  pub get_otp : Stamp → Text → S → Result Error OtpRecord × S
  pub incr_otp_attempts : Stamp → Text → S → Result Error ℕ × S
  pub delete_otp : Text → S → Result Error (Unit {0}) × S
  pub save_reset_token : Stamp → Text → Text → Text → ℕ → S → Result Error (Unit {0}) × S
  pub get_reset_token : Stamp → Text → S → Result Error ResetTokenRecord × S
  pub delete_reset_token : Text → S → Result Error (Unit {0}) × S

-- ports.AccessTokenManager; it keeps no state, and reads the clock
pub record AccessTokenManager : Type 0 where
  pub generate_access_token : Stamp → Text → Text → List Text → Result Error Text
  pub validate_access_token : Stamp → Text → Result Error Claims
