-- ===== src/Memory/Resets.antt =====
-- internal/adapters/cache/memory/reset.go. The key of a code is the hash of the address, by
-- `token.Hash`, which is the parameter `hash`.
pub mod Attempts
use auth_service.Prelude.{
  ℕ, ◌+◌, Text, Option, none, some, [], ltb, if◌then◌else◌, Bool, true, false,
}
use auth_service.Prelude.Maps.{Map, lookup, insert, delete}
use auth_service.Models.{Stamp}
use auth_service.Ports.{
  Error, Result, ok, err, reset_code_not_found, reset_token_not_found, OtpRecord, ResetTokenRecord,
  PasswordResetStore,
}

pub record OtpEntry : Type 0 where
  pub otp : OtpRecord
  pub expires_at : ℕ

pub record ResetTokenEntry : Type 0 where
  pub token : ResetTokenRecord
  pub expires_at : ℕ

pub record Resets : Type 0 where
  pub otps : Map OtpEntry
  pub reset_tokens : Map ResetTokenEntry

-- NewResetStore
abbrev pub new_reset_store : Resets
new_reset_store = record { otps = []; reset_tokens = [] }

abbrev pub live_otp : ℕ → Option OtpEntry → Option OtpEntry
live_otp now none = none
live_otp now (some e) = if ltb e.expires_at now then none else some e

abbrev pub live_token : ℕ → Option ResetTokenEntry → Option ResetTokenEntry
live_token now none = none
live_token now (some e) = if ltb e.expires_at now then none else some e

module _ (hash : Text → Text) where
  -- (*ResetStore).SaveOTP
  unfoldable pub save_otp :
      Stamp → Text → Text → Text → ℕ → Resets → Result Error (Unit {0}) × Resets
  save_otp t user_id email otp_hash ttl s =
      let code : OtpRecord = record { user_id = user_id; otp_hash = otp_hash; attempts = 0 } in
      let entry : OtpEntry = record { otp = code; expires_at = t.now + ttl } in
      (ok tt, record s { otps = insert (hash email) entry s.otps })

  -- (*ResetStore).GetOTP
  unfoldable pub get_otp : Stamp → Text → Resets → Result Error OtpRecord × Resets
  get_otp t email s = elim (live_otp t.now (lookup (hash email) s.otps)) [
    | none ↦ (err reset_code_not_found, record s { otps = delete (hash email) s.otps })
    | some e ↦ (ok e.otp, s)
  ]

  -- (*ResetStore).IncrOTPAttempts
  unfoldable pub incr_otp_attempts : Stamp → Text → Resets → Result Error ℕ × Resets
  incr_otp_attempts t email s = elim (live_otp t.now (lookup (hash email) s.otps)) [
    | none ↦ (err reset_code_not_found, record s { otps = delete (hash email) s.otps })
    | some e ↦
        let n : ℕ = e.otp.attempts + 1 in
        let entry : OtpEntry = record e { otp = record (e.otp) { attempts = n } } in
        (ok n, record s { otps = insert (hash email) entry s.otps })
  ]

  -- (*ResetStore).DeleteOTP
  unfoldable pub delete_otp : Text → Resets → Result Error (Unit {0}) × Resets
  delete_otp email s = (ok tt, record s { otps = delete (hash email) s.otps })

  -- (*ResetStore).SaveResetToken
  unfoldable pub save_reset_token :
      Stamp → Text → Text → Text → ℕ → Resets → Result Error (Unit {0}) × Resets
  save_reset_token t token_hash user_id email ttl s =
      let entry : ResetTokenEntry = record {
        token = record { user_id = user_id; email = email };
        expires_at = t.now + ttl;
      } in
      (ok tt, record s { reset_tokens = insert token_hash entry s.reset_tokens })

  -- (*ResetStore).GetResetToken
  unfoldable pub get_reset_token : Stamp → Text → Resets → Result Error ResetTokenRecord × Resets
  get_reset_token t token_hash s = elim (live_token t.now (lookup token_hash s.reset_tokens)) [
    | none ↦
        (err reset_token_not_found, record s { reset_tokens = delete token_hash s.reset_tokens })
    | some e ↦ (ok e.token, s)
  ]

  -- (*ResetStore).DeleteResetToken
  unfoldable pub delete_reset_token : Text → Resets → Result Error (Unit {0}) × Resets
  delete_reset_token token_hash s =
      (ok tt, record s { reset_tokens = delete token_hash s.reset_tokens })

  abbrev pub reset_store : PasswordResetStore Resets
  reset_store = record {
    save_otp = save_otp;
    get_otp = get_otp;
    incr_otp_attempts = incr_otp_attempts;
    delete_otp = delete_otp;
    save_reset_token = save_reset_token;
    get_reset_token = get_reset_token;
    delete_reset_token = delete_reset_token;
  }
