-- ===== src/Auth/Admission.antt =====
-- internal/service/auth/auth.go: Login gives tokens to none but who knows the password.
use auth_service.Prelude.{
  ◌≡◌, refl, sym, ◌∙◌, ap, subst, Text, String, Option, none, some, [], if◌then◌else◌, Bool, true,
  false, eq_refl, arith,
}
use auth_service.Models.{User, Session}
use auth_service.Ports.{Error, Result, ok, err}
use auth_service.Ports.Laws.{SessionLaws}
use auth_service.Context.{Context, extract_client_info}
use auth_service.Validate.{check_email}
use auth_service.Bruteforce.{Limits, is_locked}
use auth_service.Password
use auth_service.Auth.Monad.{Deps, State, Action, pure, read, case, on_users, on_guard, ◌>>=◌}
use auth_service.Auth.Helpers.{hash, valid}
use auth_service.Auth.Rules.{
  Ensures, Ensures-after, Ensures-fail, Quiet-pure, Quiet-read, Quiet-on_guard, Quiet, Keeps-Quiet,
  Refuses,
}
use auth_service.Auth.Quiet.{
  keeps_rules, quiet_rules, Ensures-if, Ensures-case, Ensures-call, Ensures-weaken, >>=-ok,
}
use auth_service.Auth.Rotation.{Ensures-reply, generate-hash}
use auth_service.Auth.Login.{
  LoginRequest, Tokens, answer, guarded, check_locked, count_failure, clear_failures, refuse_locked,
  refuse_credentials, store_session, open_session, check_password_of, login,
}

ruleset reply_rules = (keeps_rules, Ensures-after, Ensures-fail, Ensures-if, Ensures-case)

module _ (d : Deps) where
  Quiet-guarded :
      {A : Type 0} (o : Option Limits) (m : Action (State d) A) (f : Limits → Action (State d) A)
      → Quiet d m
      → ((l : Limits) → Quiet d (f l))
      → Quiet d (guarded o m f)
  Quiet-guarded none m f p q = p
  Quiet-guarded (some l) m f p q = q l

  Quiet-clear_failures : (e : Text) → Quiet d (clear_failures d e)
  unfolding clear_failures
  Quiet-clear_failures e =
      Quiet-guarded d.brute_guard _ _ (Quiet-pure d tt) (λ l. Quiet-on_guard d _)

  Quiet-count_failure : (e : Text) → Quiet d (count_failure d e)
  unfolding count_failure
  Quiet-count_failure e = search (quiet_rules, Quiet-guarded) depth 12

  Quiet-check_locked : (e : Text) → Quiet d (check_locked d e)
  unfolding check_locked
  Quiet-check_locked e = search (quiet_rules, Quiet-guarded) depth 12

  refuse_locked-Refuses :
      (P : d.Sessions → Type 0) (e ip ua m : Text) (o : Option Text) (i : Text)
      → Refuses d P (refuse_locked d e ip ua m o i)
  unfolding refuse_locked
  refuse_locked-Refuses P e ip ua m o i = search reply_rules depth 12

  refuse_credentials-Refuses :
      (P : d.Sessions → Type 0) (e ip ua m : Text) (o : Option Text) (i : Text)
      → Refuses d P (refuse_credentials d e ip ua m o i)
  unfolding refuse_credentials
  refuse_credentials-Refuses P e ip ua m o i = search reply_rules depth 12

  module _ (laws : SessionLaws d.session_store) where
    open laws use {IsValid, owner}

    -- The reply's refresh token has a session of this user.
    abbrev pub Opened : Text → Tokens → d.Sessions → Type 0
    Opened u r x = owner (hash d r.refresh_token) x ≡ some u

    replied :
        (u : Text) (tokens : Tokens) (m : Action (State d) Tokens)
        → Ensures d (Opened u tokens) m (λ r x. (r ≡ tokens) × Opened u tokens x)
        → Ensures d (Opened u tokens) m (Opened u)
    replied u tokens m h =
        Ensures-weaken d (Opened u tokens) (λ r x. (r ≡ tokens) × Opened u tokens x) (Opened u) m
          (λ r x p. ap (λ t. owner (hash d t.refresh_token) x) p.0 ∙ p.1) h

    store_session-Opened :
        (u : User) (y : Session) (tokens : Tokens) (ip ua : Text)
        → y.token_hash ≡ hash d tokens.refresh_token
        → y.user_id ≡ u.id
        → Ensures d IsValid (store_session d u y tokens ip ua) (Opened u.id)
    unfolding store_session
    store_session-Opened u y tokens ip ua g i =
        Ensures-after d (Keeps-Quiet d _ _ (Quiet-read d)) λ t.
          Ensures-call d IsValid (λ _ x. owner (hash d tokens.refresh_token) x ≡ some u.id) _ _ _ _
            (λ x z v e. ground (
              arith,
              laws.create_ok t y z x (hash d tokens.refresh_token) v e,
              eq_refl y.token_hash,
              g,
              i,
            ))
            (λ e. Ensures-fail d _ _ _ _)
            (λ z. replied u.id tokens _ (search (reply_rules, Ensures-reply) depth 14))

    open_session-Opened :
        (ip ua : Text) (req : LoginRequest) (u : User)
        → Ensures d IsValid (open_session d ip ua req u) (Opened u.id)
    unfolding open_session hash
    open_session-Opened ip ua req u =
        search (reply_rules, Quiet-clear_failures, store_session-Opened, generate-hash) depth 22

    -- The password is that of the user, whom the new session belongs to.
    abbrev Admitted : LoginRequest → User → Tokens → d.Sessions → Type 0
    Admitted req u r x =
        (Password.verify d.id_key req.password u.password_hash ≡ ok true) × Opened u.id r x

    matched :
        (ip ua : Text) (req : LoginRequest) (u : User) (b : Bool)
        → Password.verify d.id_key req.password u.password_hash ≡ ok b
        → Ensures d IsValid
            (if b
              then open_session d ip ua req u
              else (count_failure d req.email >>= λ w.
                  if w
                  then refuse_locked d req.email ip ua u.email (some u.id) u.id
                  else refuse_credentials d req.email ip ua u.email (some u.id) u.id))
            (Admitted req u)
    matched ip ua req u true e =
        Ensures-weaken d IsValid (Opened u.id) (Admitted req u) _ (λ r x o. (e, o))
          (open_session-Opened ip ua req u)
    matched ip ua req u false e =
        Ensures-weaken d IsValid (λ _ _. ⊥) (Admitted req u) _ (λ r x o. absurd o)
          (search
            (reply_rules, Quiet-count_failure, refuse_locked-Refuses, refuse_credentials-Refuses)
            depth 10)

    check_password_of-Admitted :
        (ip ua : Text) (req : LoginRequest) (u : User)
        → Ensures d IsValid (check_password_of d ip ua req u) (Admitted req u)
    unfolding check_password_of
    check_password_of-Admitted ip ua req u = search (reply_rules, matched) depth 8

    found-Admitted :
        (ip ua : Text) (req : LoginRequest) (r : Result Error User)
        (g : Error → Action (State d) Tokens)
        → ((e : Error) → Refuses d IsValid (g e))
        → Ensures d IsValid
            (case r g (check_password_of d ip ua req))
            (λ a x. (u : User) × (r ≡ ok u) × Admitted req u a x)
    found-Admitted ip ua req (ok u) g h =
        Ensures-weaken d IsValid (Admitted req u) _ _ (λ a x p. (u, refl, p))
          (check_password_of-Admitted ip ua req u)
    found-Admitted ip ua req (err e) g h =
        Ensures-weaken d IsValid (λ _ _. ⊥) _ _ (λ a x p. absurd p) (h e)

    -- Login behind the test of the lock.
    unlocked-Admitted :
        (ip ua : Text) (req : LoginRequest) (g : Error → Action (State d) Tokens)
        → ((e : Error) → Refuses d IsValid (g e))
        → (s : State d) (a : Tokens) → IsValid s.sessions
        → ((on_users (d.user_store.get_by_email req.email) >>= λ r.
              case r g (check_password_of d ip ua req))
            s).0
          ≡ ok a
        → (u : User) × ((d.user_store.get_by_email req.email s.users).0 ≡ ok u)
          × Admitted req u a
              ((on_users (d.user_store.get_by_email req.email) >>= λ r.
                  case r g (check_password_of d ip ua req))
                s).1.sessions
    unfolding ◌>>=◌ on_users
    unlocked-Admitted ip ua req g h s a v e =
        (found-Admitted ip ua req (d.user_store.get_by_email req.email s.users).0 g h).at
          (record s { users = (d.user_store.get_by_email req.email s.users).1 }) v a e

  pub valid-ok :
      {A : Type 0} (r : Result String (Unit {0})) (f : Unit {0} → Action (State d) A) (s : State d)
      {a : A}
      → ((valid d r >>= f) s).0 ≡ ok a
      → (r ≡ ok tt) × ((valid d r >>= f) s ≡ f tt s)
  unfolding ◌>>=◌
  valid-ok (ok tt) f s e = (refl, refl)
  valid-ok (err m) f s e = absurd (cc)

  pub check_locked-users : (e : Text) (s : State d) → (check_locked d e s).1.users ≡ s.users
  unfolding check_locked ◌>>=◌ read on_guard
  check_locked-users e s = by d.brute_guard
    where
      by :
          (o : Option Limits)
          → (guarded o
              (pure false)
              (λ l. read {d = d} >>= λ t.
                on_guard (is_locked d.redis l t.now e) >>= λ r. pure (answer r))
              s).1.users
            ≡ s.users
      by none = refl
      by (some l) = refl

  module _ (laws : SessionLaws d.session_store) where
    open laws use {IsValid, owner}

    -- What Login does once it knows whether the account is locked.
    locked-Admitted :
        (ip ua : Text) (req : LoginRequest) (b : Bool) (g : Error → Action (State d) Tokens)
        → ((e : Error) → Refuses d IsValid (g e))
        → (s : State d) (a : Tokens) → IsValid s.sessions
        → ((if b
              then refuse_locked d req.email ip ua req.email none []
              else (on_users (d.user_store.get_by_email req.email) >>= λ r.
                  case r g (check_password_of d ip ua req)))
            s).0
          ≡ ok a
        → (u : User) × (b ≡ false)
          × ((d.user_store.get_by_email req.email s.users).0 ≡ ok u)
          × Admitted laws req u a
              ((if b
                  then refuse_locked d req.email ip ua req.email none []
                  else (on_users (d.user_store.get_by_email req.email) >>= λ r.
                      case r g (check_password_of d ip ua req)))
                s).1.sessions
    locked-Admitted ip ua req true g h s a v e =
        absurd ((refuse_locked-Refuses IsValid req.email ip ua req.email none []).at s v a e)
    locked-Admitted ip ua req false g h s a v e =
        let (u, found, admitted) = unlocked-Admitted laws ip ua req g h s a v e in
        (u, refl, found, admitted)

    -- Over a session store that keeps its laws, from a sound state: a Login that is answered with
    -- tokens found the account unlocked and its email address with a user, whose password hash
    -- the given password verifies against; the reply's refresh token has a session of that user.
    pub login_admits :
        (ctx : Context) (req : LoginRequest) (s : State d) (a : Tokens)
        → IsValid s.sessions
        → (login d ctx req s).0 ≡ ok a
        → (u : User) × ((check_locked d req.email s).0 ≡ ok false)
          × ((d.user_store.get_by_email req.email s.users).0 ≡ ok u)
          × (Password.verify d.id_key req.password u.password_hash ≡ ok true)
          × (owner (hash d a.refresh_token) (login d ctx req s).1.sessions ≡ some u.id)
    unfolding login
    login_admits ctx req s a v e =
        let (_, same) = valid-ok (check_email req.email) _ s e in
        let (b, eb, next) =
          >>=-ok d (check_locked d req.email) _ s (sym (ap (λ x. x.0) same) ∙ e) in
        let (u, eb', found, admitted) =
          locked-Admitted (extract_client_info ctx).0 (extract_client_info ctx).1 req b _
            (λ x. search (reply_rules, refuse_credentials-Refuses) depth 8)
            (check_locked d req.email s).1 a
            (subst IsValid (sym ((Quiet-check_locked req.email).at s)) v)
            (sym (ap (λ x. x.0) (same ∙ next)) ∙ e) in
        (
          u,
          eb ∙ ap ok eb',
          subst (λ x. (d.user_store.get_by_email req.email x).0 ≡ ok u)
              (check_locked-users req.email s) found,
          admitted.0,
          ap (λ x. owner (hash d a.refresh_token) x.1.sessions) (same ∙ next) ∙ admitted.1,
        )
