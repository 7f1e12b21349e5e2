-- ===== src/Auth/Requests.antt =====
-- internal/service/auth/auth.go: what RequestPasswordReset answers to known and unknown addresses.
use auth_service.Prelude.{
  ℕ, ◌≡◌, ◌%◌, ◌⊎◌, inl, inr, refl, ◌∙◌, ap, Text, some, List, true, if◌then◌else◌,
}
use auth_service.Models.{User, Stamp}
use auth_service.Ports.{Error, Result, ok, err, is_user_not_found}
use auth_service.Context.{Context}
use auth_service.Validate.{check_email}
use auth_service.Token
use auth_service.Encoding.{digits}
use auth_service.Auth.Monad.{Deps, State, Action, pure, case, on_users, on_resets, ◌>>=◌}
use auth_service.Auth.Helpers.{hash, internal_error}
use auth_service.Auth.Answers.{
  Answers, Answers-bind, Answers-read, Answers-read_bind, Answers-case, Answers-log_audit,
  Answers-fire_hook,
}
use auth_service.Auth.Outcomes.{bind-valid}
use auth_service.Auth.Reset.{reset_ttl, issue_code, request_password_reset}

-- Random bytes can be read and the reset store's SaveOTP does not fail.
pub record Saves (d : Deps) : Type 0 where
  pub draws : (n : ℕ) → (b : List ℕ) × ((d.stamp n).entropy 4 ≡ some b)
  pub saves :
      (t : Stamp) (u e h : Text) (ttl : ℕ) (x : d.Resets)
      → (d.reset_store.save_otp t u e h ttl x).0 ≡ ok tt

module _ (d : Deps) where
  generate_otp-ok :
      (t : Stamp) (b : List ℕ)
      → t.entropy 4 ≡ some b
      → (code : Text) × (Token.generate_otp t ≡ ok code)
  unfolding Token.generate_otp
  generate_otp-ok t b e = (digits 6 (Token.uint32 b % 1000000), rw (Token.generate_otp, e) refl)

  Answers-save :
      {A B : Type 0} (g : d.Resets → A × d.Resets) (f : A → Action (State d) B)
      → ((x : d.Resets) → Answers d (f (g x).0))
      → Answers d (on_resets {d = d} g >>= f)
  unfolding ◌>>=◌ on_resets
  Answers-save g f q = record { at = λ s. (q s.resets).at _ }

  issue_code-Answers :
      Saves d → (ctx : Context) (email : Text) (u : User) → Answers d (issue_code d ctx email u)
  unfolding issue_code
  issue_code-Answers w ctx email u = Answers-read_bind d _ λ n.
      Answers-case d _ _ _ (generate_otp-ok (d.stamp n) (w.draws n).0 (w.draws n).1) λ code.
        Answers-bind d (Answers-read d) λ t'. Answers-save _ _ λ x.
          Answers-case d _ _ _ (tt, w.saves t' u.id email (hash d code) reset_ttl x)
            λ done.
              Answers-bind d (Answers-log_audit d _ _ _ _ _) λ _. Answers-fire_hook d _ _ _ _ _ _

  -- The part of RequestPasswordReset behind the lookup.
  abbrev requested : Context → Text → Result Error User → Action (State d) (Unit {0})
  requested ctx email r =
      case r (λ e. if is_user_not_found e then pure tt else internal_error d)
        (issue_code d ctx email)

  -- A lookup that found a user, or none.
  abbrev pub Looked : Result Error User → Type 0
  Looked r = ((u : User) × (r ≡ ok u)) ⊎ ((e : Error) × (r ≡ err e) × (is_user_not_found e ≡ true))

  requested-ok :
      Saves d
      → (ctx : Context) (email : Text) (r : Result Error User) (k : State d) → Looked r
      → (requested ctx email r k).0 ≡ ok tt
  requested-ok w ctx email r k (inl (u, e)) =
      let (_, answer) = (issue_code-Answers w ctx email u).at k in
      ap (λ r. (requested ctx email r k).0) e ∙ answer
  requested-ok w ctx email r k (inr (e, f, absent)) =
      ap (λ r. (requested ctx email r k).0) f ∙ (rw absent refl)

  searched-ok :
      Saves d
      → (ctx : Context) (email : Text) (s : State d)
      → Looked (d.user_store.get_by_email email s.users).0
      → ((on_users {d = d} (d.user_store.get_by_email email) >>= requested ctx email) s).0 ≡ ok tt
  unfolding ◌>>=◌ on_users
  searched-ok w ctx email s l =
      let found = d.user_store.get_by_email email s.users in
      requested-ok w ctx email found.0 (record s { users = found.1 }) l

  -- While random bytes can be read and the reset store's SaveOTP does not fail: RequestPasswordReset
  -- gives one and the same answer for every well-formed address, whether the lookup finds a user or
  -- reports that there is none.
  pub request_password_reset_conceals :
      (ctx : Context) (email : Text) (s : State d)
      → Saves d
      → check_email email ≡ ok tt
      → Looked (d.user_store.get_by_email email s.users).0
      → (request_password_reset d ctx email s).0 ≡ ok tt
  unfolding request_password_reset
  request_password_reset_conceals ctx email s w v l =
      ap (λ r. r.0) (bind-valid d (check_email email) _ s v) ∙ searched-ok w ctx email s l
