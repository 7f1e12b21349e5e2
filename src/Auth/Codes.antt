-- ===== src/Auth/Codes.antt =====
-- internal/service/auth/auth.go: VerifyResetCode gives a reset token for a right code in time only.
use auth_service.Prelude.{
  ℕ, suc, ◌≡◌, ◌≢◌, refl, sym, ◌∙◌, ap, Text, if◌then◌else◌, Bool, true, false, ltb, eq_iff, arith,
}
use auth_service.Ports.{Error, Result, ok, err, OtpRecord}
use auth_service.Validate.{check_email}
use auth_service.Auth.Monad.{
  Deps, State, Status, Action, pure, fail, read, case, on_resets, ◌>>=◌, ◌>>◌,
}
use auth_service.Auth.Helpers.{hash}
use auth_service.Auth.Rules.{Ensures-after, Ensures-fail, Refuses}
use auth_service.Auth.Quiet.{keeps_rules, Ensures-if}
use auth_service.Auth.Reset.{
  VerifyRequest, bad_code, max_otp_attempts, issue_reset_token, judge_attempt, verify_reset_code,
}
use auth_service.Auth.Admission.{valid-ok}

ruleset code_rules = (keeps_rules, Ensures-after, Ensures-fail, Ensures-if)

module _ (d : Deps) (req : VerifyRequest) where
  too_many-Refuses :
      Refuses d {A = Text}
        (λ _. Unit {0})
        (on_resets {d = d} (d.reset_store.delete_otp req.email) >>= λ _.
          fail auth_service.Auth.Monad.unauthenticated "too many attempts")
  too_many-Refuses = search code_rules depth 8

  judge_attempt-ok :
      (otp : OtpRecord) (n : ℕ) (s : State d) (token : Text)
      → (judge_attempt d req otp n s).0 ≡ ok token
      → (ltb n max_otp_attempts ≡ true) × (hash d req.otp ≡ otp.otp_hash)
  unfolding judge_attempt
  judge_attempt-ok otp n s token e =
      let (early, right) = by _ _ e in
      (ground arith, (eq_iff (hash d req.otp) otp.otp_hash).0 right)
    where
      by :
          (b c : Bool)
          → ((if b
                then (on_resets {d = d} (d.reset_store.delete_otp req.email) >>= λ _.
                    fail auth_service.Auth.Monad.unauthenticated "too many attempts")
                else if c
                then issue_reset_token d req otp
                else fail auth_service.Auth.Monad.unauthenticated "invalid or expired code")
              s).0
            ≡ ok token
          → (b ≡ false) × (c ≡ true)
      by true c e = absurd (too_many-Refuses.at s tt token e)
      by false true e = (refl, refl)
      by false false e = absurd cc

  bad_code-err : (x : Error) (s : State d) (token : Text) → (bad_code d {A = Text} x s).0 ≢ ok token
  bad_code-err x s token e = (refused x).at s tt token e
    where
      refused : (x : Error) → Refuses d (λ _. Unit {0}) (bad_code d {A = Text} x)
      refused x = search code_rules depth 6

  counted-ok :
      (otp : OtpRecord) (r : Result Error ℕ) (s : State d) (token : Text)
      → (case r (bad_code d) (judge_attempt d req otp) s).0 ≡ ok token
      → (n : ℕ) × (r ≡ ok n) × (ltb n max_otp_attempts ≡ true) × (hash d req.otp ≡ otp.otp_hash)
  counted-ok otp (ok n) s token e =
      let (early, right) = judge_attempt-ok otp n s token e in (n, refl, early, right)
  counted-ok otp (err x) s token e = absurd (bad_code-err x s token e)

  record-ok :
      (r : Result Error OtpRecord) (f : OtpRecord → Action (State d) Text) (s : State d)
      (token : Text)
      → (case r (bad_code d) f s).0 ≡ ok token
      → (otp : OtpRecord) × (r ≡ ok otp) × ((f otp s).0 ≡ ok token)
  record-ok (ok otp) f s token e = (otp, refl, e)
  record-ok (err x) f s token e = absurd (bad_code-err x s token e)

  -- VerifyResetCode behind the check of the address.
  abbrev Checked : State d → Type 0
  Checked s =
      (otp : OtpRecord) × (n : ℕ) × ((d.reset_store.get_otp (d.stamp s.calls) req.email s.resets).0
        ≡ ok otp)
      × ((d.reset_store.incr_otp_attempts (d.stamp (suc s.calls)) req.email
            (d.reset_store.get_otp (d.stamp s.calls) req.email s.resets).1).0
          ≡ ok n)
      × (ltb n max_otp_attempts ≡ true)
      × (hash d req.otp ≡ otp.otp_hash)

  -- A VerifyResetCode that is answered with a reset token found a record of the address whose code
  -- hash is that of the given code, and was itself, when counted, less than the fifth attempt.
  pub verify_reset_code_checks :
      (s : State d) (token : Text) → (verify_reset_code d req s).0 ≡ ok token → Checked s
  unfolding verify_reset_code ◌>>=◌ read on_resets
  verify_reset_code_checks s token e =
      let (_, same) = valid-ok d (check_email req.email) _ s e in
      let (otp, found, e₁) = record-ok _ _ _ token (sym (ap (λ x. x.0) same) ∙ e) in
      let (n, counted, early, right) = counted-ok otp _ _ token e₁ in
      (otp, n, found, counted, early, right)
