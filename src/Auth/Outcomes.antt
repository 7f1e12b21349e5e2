-- ===== src/Auth/Outcomes.antt =====
-- internal/service/auth/auth.go: what Login answers to right and to wrong credentials.
use auth_service.Prelude.{
  ℕ, ◌≡◌, ◌⊎◌, inl, inr, refl, sym, ◌∙◌, ap, subst, Text, String, Option, none, some, List, [],
  if◌then◌else◌, Bool, true, false,
}
use auth_service.Models.{User, Session, Stamp}
use auth_service.Ports.{Error, Result, ok, err, is_user_not_found}
use auth_service.Context.{Context, extract_client_info}
use auth_service.Validate.{check_email}
use auth_service.Bruteforce.{Limits}
use auth_service.Password
use auth_service.Token
use auth_service.Encoding.{url_encode, hex}
use auth_service.Auth.Monad.{
  Deps, State, Status, unauthenticated, resource_exhausted, Action, continue, case, on_users, ◌>>=◌,
}
use auth_service.Auth.Helpers.{valid, internal_error}
use auth_service.Auth.Answers.{
  Answers, Gives, Answers-pure, Answers-read, Answers-on_guard, Answers-bind, Answers-read_bind,
  Answers-call, Answers-case, Answers-log_audit, Answers-fire_hook, Answers-cache_session,
  Gives-fail, Gives-if, Gives-bind,
}
use auth_service.Auth.Login.{
  LoginRequest, Tokens, answer, guarded, user_roles, check_locked, count_failure, clear_failures,
  refuse_locked, refuse_credentials, store_session, open_session, check_password_of, login,
}
use auth_service.Auth.Admission.{check_locked-users}

-- The backends that Login needs once the password has matched never fail.
pub record Works (d : Deps) : Type 0 where
  pub creates :
      (t : Stamp) (x : Session) (k : d.Sessions)
      → (y : Session) × ((d.session_store.create t x k).0 ≡ ok y)
  pub signs :
      (t : Stamp) (u m : Text) (rs : List Text)
      → (a : Text) × (d.token_mgr.generate_access_token t u m rs ≡ ok a)
  pub draws : (n : ℕ) → (b : List ℕ) × ((d.stamp n).entropy 32 ≡ some b)

module _ (d : Deps) where
  generate-ok :
      (t : Stamp) (b : List ℕ)
      → t.entropy 32 ≡ some b
      → (r : Text × Text) × (Token.generate d.sha256 t ≡ ok r)
  unfolding Token.generate
  generate-ok t b e = ((url_encode b, hex (d.sha256 (url_encode b))), rw (Token.generate, e) refl)

  Answers-guarded :
      {A : Type 0} (o : Option Limits) (m : Action (State d) A) (f : Limits → Action (State d) A)
      → Answers d m
      → ((l : Limits) → Answers d (f l))
      → Answers d (guarded o m f)
  Answers-guarded none m f p q = p
  Answers-guarded (some l) m f p q = q l

  Answers-clear_failures : (e : Text) → Answers d (clear_failures d e)
  unfolding clear_failures
  Answers-clear_failures e =
      Answers-guarded d.brute_guard _ _ (Answers-pure d tt) (λ l. Answers-on_guard d _)

  Answers-count_failure : (e : Text) → Answers d (count_failure d e)
  unfolding count_failure
  Answers-count_failure e = Answers-guarded d.brute_guard _ _ (Answers-pure d false) λ l.
      Answers-bind d (Answers-read d)
        λ t. Answers-bind d (Answers-on_guard d _) λ r. Answers-pure d (answer r)

  module _ (w : Works d) where
    store_session-Answers :
        (u : User) (y : Session) (tokens : Tokens) (ip ua : Text)
        → Answers d (store_session d u y tokens ip ua)
    unfolding store_session
    store_session-Answers u y tokens ip ua = Answers-bind d (Answers-read d) λ t.
        Answers-call d _ _ λ k. Answers-case d _ _ _ (w.creates t y k) λ stored.
          Answers-bind d (Answers-cache_session d _ _) λ _.
            Answers-bind d (Answers-log_audit d _ _ _ _ _)
              λ _. Answers-bind d (Answers-fire_hook d _ _ _ _ _ _) λ _. Answers-pure d tokens

    open_session-Answers :
        (ip ua : Text) (req : LoginRequest) (u : User) → Answers d (open_session d ip ua req u)
    unfolding open_session
    open_session-Answers ip ua req u = Answers-bind d (Answers-clear_failures req.email) λ _.
        Answers-bind d (Answers-read d) λ t.
          Answers-case d _ _ _ (w.signs t u.id u.email user_roles) λ access.
            Answers-read_bind d _ λ n.
              Answers-case d _ _ _ (generate-ok (d.stamp n) (w.draws n).0 (w.draws n).1)
                λ refresh. Answers-bind d (Answers-read d) λ t₃. store_session-Answers u _ _ ip ua

  -- status.Error(codes.Unauthenticated, "invalid credentials")
  abbrev pub bad_credentials : Status
  bad_credentials = record { code = unauthenticated; message = "invalid credentials" }

  -- The answer to a locked account.
  abbrev pub locked_out : Status
  locked_out = record {
    code = resource_exhausted;
    message = "account temporarily locked due to too many failed attempts, try again later";
  }

  refuse_credentials-Gives :
      (Q : Result Status Tokens → Type 0) (e ip ua m : Text) (o : Option Text) (i : Text)
      → Q (err bad_credentials)
      → Gives d Q (refuse_credentials d e ip ua m o i)
  unfolding refuse_credentials
  refuse_credentials-Gives Q e ip ua m o i h =
      Gives-bind d (Answers-log_audit d _ _ _ _ _)
        λ _. Gives-bind d (Answers-fire_hook d _ _ _ _ _ _) λ _. Gives-fail d Q _ _ h

  refuse_locked-Gives :
      (Q : Result Status Tokens → Type 0) (e ip ua m : Text) (o : Option Text) (i : Text)
      → Q (err locked_out)
      → Gives d Q (refuse_locked d e ip ua m o i)
  unfolding refuse_locked
  refuse_locked-Gives Q e ip ua m o i h =
      Gives-bind d (Answers-log_audit d _ _ _ _ _)
        λ _. Gives-bind d (Answers-fire_hook d _ _ _ _ _ _) λ _. Gives-fail d Q _ _ h

  -- The two answers to a wrong password.
  abbrev pub Refused : Result Status Tokens → Type 0
  Refused r = (r ≡ err bad_credentials) ⊎ (r ≡ err locked_out)

  -- The part of Login behind the test of the lock, for one result of the lookup.
  abbrev judged : Context → LoginRequest → Result Error User → Action (State d) Tokens
  judged ctx req r =
      case r
        (λ e.
          if is_user_not_found e
          then refuse_credentials d req.email (extract_client_info ctx).0
              (extract_client_info ctx).1 req.email none []
          else internal_error d)
        (check_password_of d (extract_client_info ctx).0 (extract_client_info ctx).1 req)

  bind-ok :
      {A B : Type 0} (m : Action (State d) A) (f : A → Action (State d) B) (s : State d) (a : A)
      → (m s).0 ≡ ok a
      → (m >>= f) s ≡ f a (m s).1
  unfolding ◌>>=◌
  bind-ok m f s a e = ap (λ r. continue r f (m s).1) e

  pub bind-valid :
      {B : Type 0} (r : Result String (Unit {0})) (f : Unit {0} → Action (State d) B) (s : State d)
      → r ≡ ok tt
      → (valid d r >>= f) s ≡ f tt s
  unfolding ◌>>=◌
  bind-valid r f s e = ap (λ r. continue (valid d r s).0 f (valid d r s).1) e

  looked :
      (e : Text) (f : Result Error User → Action (State d) Tokens) (l : State d)
      → (on_users {d = d} (d.user_store.get_by_email e) >>= f) l
        ≡ f
            (d.user_store.get_by_email e l.users).0
            (on_users {d = d} (d.user_store.get_by_email e) l).1
  unfolding on_users
  looked e f l = bind-ok (on_users {d = d} (d.user_store.get_by_email e)) f l _ refl

  -- With a good address and no lock, Login's answer is that of its last part.
  login-unlocked :
      (ctx : Context) (req : LoginRequest) (s : State d)
      → check_email req.email ≡ ok tt
      → (check_locked d req.email s).0 ≡ ok false
      → (k : State d) × ((login d ctx req s).0
          ≡ (judged ctx req (d.user_store.get_by_email req.email s.users).0 k).0)
  unfolding login
  login-unlocked ctx req s v u =
      let l = (check_locked d req.email s).1 in
      let look = on_users {d = d} (d.user_store.get_by_email req.email) in
      (
        (look l).1,
        ap (λ r. r.0)
              (bind-valid (check_email req.email) _ s v
                ∙ bind-ok (check_locked d req.email) _ s false u
                ∙ looked req.email (judged ctx req) l)
            ∙ ap (λ x. (judged ctx req (d.user_store.get_by_email req.email x).0 (look l).1).0)
                (check_locked-users d req.email s),
      )

  wrong_password-Gives :
      (ip ua : Text) (req : LoginRequest) (u : User)
      → Password.verify d.id_key req.password u.password_hash ≡ ok false
      → Gives d Refused (check_password_of d ip ua req u)
  unfolding check_password_of
  wrong_password-Gives ip ua req u e =
      subst (λ r. Gives d Refused (case r (λ _. internal_error d) (after_match u))) (sym e)
        (Gives-bind d (Answers-count_failure req.email) λ w.
          Gives-if d Refused w (refuse_locked-Gives Refused _ _ _ _ _ _ (inr refl))
            (refuse_credentials-Gives Refused _ _ _ _ _ _ (inl refl)))
    where
      after_match : User → Bool → Action (State d) Tokens
      after_match u match =
          if match
          then open_session d ip ua req u
          else (count_failure d req.email >>= λ w.
              if w
              then refuse_locked d req.email ip ua u.email (some u.id) u.id
              else refuse_credentials d req.email ip ua u.email (some u.id) u.id)

  right_password :
      Works d
      → (ip ua : Text) (req : LoginRequest) (u : User)
      → Password.verify d.id_key req.password u.password_hash ≡ ok true
      → (k : State d) → (a : Tokens) × ((check_password_of d ip ua req u k).0 ≡ ok a)
  unfolding check_password_of
  right_password w ip ua req u e k =
      let (a, g) = (open_session-Answers w ip ua req u).at k in (a, rw (check_password_of, e) g)

  unknown :
      (ctx : Context) (req : LoginRequest) (e : Error) (k : State d)
      → is_user_not_found e ≡ true
      → (judged ctx req (err e) k).0 ≡ err bad_credentials
  unknown ctx req e k absent = rw absent (
      (refuse_credentials-Gives (λ r. r ≡ err bad_credentials) req.email _ _ req.email none []
          refl).at
        k)

  -- When the address is well formed and not locked: an address of no user is answered with
  -- Unauthenticated and "invalid credentials", and a wrong password of a user with the very same
  -- status, or with the one of a locked account.
  pub login_conceals :
      (ctx : Context) (req : LoginRequest) (s : State d)
      → check_email req.email ≡ ok tt
      → (check_locked d req.email s).0 ≡ ok false
      → ((e : Error)
          → (d.user_store.get_by_email req.email s.users).0 ≡ err e
          → is_user_not_found e ≡ true
          → (login d ctx req s).0 ≡ err bad_credentials)
        × ((u : User)
            → (d.user_store.get_by_email req.email s.users).0 ≡ ok u
            → Password.verify d.id_key req.password u.password_hash ≡ ok false
            → Refused (login d ctx req s).0)
  login_conceals ctx req s v l =
      let (k, same) = login-unlocked ctx req s v l in
      (
        λ e lookup absent.
            same ∙ ap (λ r. (judged ctx req r k).0) lookup ∙ unknown ctx req e k absent,
        λ u lookup wrong.
            subst Refused (sym (same ∙ ap (λ r. (judged ctx req r k).0) lookup))
              ((wrong_password-Gives _ _ req u wrong).at k),
      )

  -- A user's own password logs in, whatever the session store, the cache and the reset store hold:
  -- when the address is well formed, not locked and a user's, the password verifies against the
  -- user's hash, and the session store's Create, the signing of access tokens and the reading of
  -- random bytes do not fail, then Login answers with tokens.
  pub login_succeeds :
      (ctx : Context) (req : LoginRequest) (s : State d) (u : User)
      → Works d
      → check_email req.email ≡ ok tt
      → (check_locked d req.email s).0 ≡ ok false
      → (d.user_store.get_by_email req.email s.users).0 ≡ ok u
      → Password.verify d.id_key req.password u.password_hash ≡ ok true
      → (a : Tokens) × ((login d ctx req s).0 ≡ ok a)
  login_succeeds ctx req s u w v l lookup right =
      let (k, same) = login-unlocked ctx req s v l in
      let (a, e) =
        right_password w (extract_client_info ctx).0 (extract_client_info ctx).1 req u right k in
      (a, same ∙ ap (λ r. (judged ctx req r k).0) lookup ∙ e)
