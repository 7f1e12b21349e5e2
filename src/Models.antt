-- ===== src/Models.antt =====
-- The domain models of internal/domain/models, and what a call reads from outside the program.
use auth_service.Prelude.{ℕ, Text, Option, List}

-- models.User
pub record User : Type 0 where
  pub id : Text
  pub email : Text
  pub password_hash : Text
  pub created_at : ℕ
  pub updated_at : ℕ

-- models.Session; times are nanoseconds
pub record Session : Type 0 where
  pub id : Text
  pub user_id : Text
  pub user_email : Text
  pub token_hash : Text
  pub device_id : Text
  pub user_agent : Text
  pub ip_address : Text
  pub expires_at : ℕ
  pub last_used_at : ℕ
  pub created_at : ℕ

-- One call's readings of the outside: `time.Now()` once and again, `uuid.NewString()`, and the
-- bytes that `crypto/rand` gives for a buffer of so many, absent where the read fails.
pub record Stamp : Type 0 where
  pub now : ℕ
  pub later : ℕ
  pub uuid : Text
  pub entropy : ℕ → Option (List ℕ)
