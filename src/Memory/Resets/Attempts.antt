-- ===== src/Memory/Resets/Attempts.antt =====
-- internal/adapters/cache/memory/reset.go: the attempts at a code are counted in its record.
use auth_service.Prelude.{ℕ, ◌+◌, ◌≡◌, ◌≢◌, inl, inr, Text, arith, Option-cases}
use auth_service.Prelude.Maps.{lookup, lookup-insert_self, lookup-delete_self}
use auth_service.Models.{Stamp}
use auth_service.Ports.{Error, Result, ok, OtpRecord, ResetTokenRecord}
use auth_service.Memory.Resets.{
  Resets, OtpEntry, get_otp, incr_otp_attempts, get_reset_token, delete_reset_token,
}

module _ (hash : Text → Text) (email : Text) where
  -- One attempt after another, at the given times, as VerifyResetCode makes them: the counts.
  unfoldable pub attempt : Stamp → Stamp → Resets → Result Error ℕ × Resets
  attempt t t' s = incr_otp_attempts hash t' email (get_otp hash t email s).1

  -- An attempt at a code that is there counts one more than its record says, and the record says
  -- that from then on as long as it is there.
  pub attempt-counts :
      (t t' t'' : Stamp) (s : Resets) (o : OtpRecord) (n : ℕ)
      → (get_otp hash t email s).0 ≡ ok o
      → (attempt t t' s).0 ≡ ok n
      → (n ≡ o.attempts + 1)
        × ((o' : OtpRecord)
            → (get_otp hash t'' email (attempt t t' s).1).0 ≡ ok o'
            → (o'.attempts ≡ n) × (o'.otp_hash ≡ o.otp_hash) × (o'.user_id ≡ o.user_id))
  unfolding attempt get_otp incr_otp_attempts
  attempt-counts t t' t'' s o n e c = elim (Option-cases (lookup (hash email) s.otps)) [
    | inl m ↦ absurd (ground arith)
    | inr (x, m) ↦
        let y : OtpEntry = record x { otp = record (x.otp) { attempts = x.otp.attempts + 1 } } in
        let w = lookup-insert_self (hash email) y s.otps in ground arith
  ]

-- A reset token that was deleted is found at no time.
pub get-delete_reset_token :
    (hash : Text → Text) (t : Stamp) (h : Text) (s : Resets) (r : ResetTokenRecord)
    → (get_reset_token hash t h (delete_reset_token hash h s).1).0 ≢ ok r
unfolding get_reset_token delete_reset_token
get-delete_reset_token hash t h s r e = ground (arith, lookup-delete_self h s.reset_tokens)
