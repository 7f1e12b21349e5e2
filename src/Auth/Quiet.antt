-- ===== src/Auth/Quiet.antt =====
-- internal/service/auth/auth.go: the helpers leave the session store alone, and the branching of
-- handlers under the rules.
use auth_service.Prelude.{
  Text, Option, none, some, List, [], ◌∷◌, Bool, true, false, if◌then◌else◌, ◌≡◌, refl, sym, subst,
  leb, ◌-◌, String, bytes, ℕ, suc,
}
use auth_service.Prelude.Maps.{Map}
use auth_service.Models.{Stamp}
use auth_service.Ports.{Error, Result, ok, err, EventType, CachedSession}
use auth_service.Context.{Context, get, first}
use auth_service.Strings.{cut_prefix}
use auth_service.Auth.Monad.{
  Deps, State, Status, Action, continue, pure, case, on_sessions, spawn, when, Task, read, ◌>>=◌,
}
use auth_service.Auth.Helpers.{
  valid, log_audit, fire_hook, cache_session, get_cached_session, delete_session_from_cache,
  delete_each, token_user, header_user, metadata_user, extract_user_id,
}
use auth_service.Auth.Rules.{
  Quiet, Keeps, Ensures, Quiet-pure, Quiet-fail, Quiet-on_cache, Quiet-on_users, Quiet-on_resets,
  Quiet-on_guard, Quiet-read, Quiet-bind, Keeps-Quiet, Keeps-bind, Keeps-on_sessions, Ensures-bind,
  Ensures-Keeps, Ensures-on_sessions,
}

module _ (d : Deps) where
  Quiet-spawn : (t : Task) → Quiet d (spawn {d = d} t)
  unfolding spawn
  Quiet-spawn t = record { at = λ s. refl }

  pub Quiet-valid : (r : Result String (Unit {0})) → Quiet d (valid d r)
  Quiet-valid (ok x) = record { at = λ s. refl }
  Quiet-valid (err m) = record { at = λ s. refl }

  Quiet-when : (b : Bool) (m : Action (State d) (Unit {0})) → Quiet d m → Quiet d (when b m)
  Quiet-when true m q = q
  Quiet-when false m q = Quiet-pure d tt

  pub Quiet-log_audit :
      (u : Option Text) (e : EventType) (ip ua : Text) (meta : List (Text × Text))
      → Quiet d (log_audit d u e ip ua meta)
  unfolding log_audit
  Quiet-log_audit u e ip ua meta = Quiet-when d.has_audit _ (Quiet-spawn _)

  pub Quiet-fire_hook :
      (u m : Text) (e : EventType) (ip ua : Text) (meta : List (Text × Text))
      → Quiet d (fire_hook d u m e ip ua meta)
  unfolding fire_hook
  Quiet-fire_hook u m e ip ua meta = Quiet-spawn _

  pub Quiet-if :
      {A : Type 0} (b : Bool) (m n : Action (State d) A)
      → Quiet d m
      → Quiet d n
      → Quiet d (if b then m else n)
  Quiet-if true m n p q = p
  Quiet-if false m n p q = q

  pub Quiet-case :
      {A B : Type 0} (r : Result Error A) (g : Error → Action (State d) B)
      (f : A → Action (State d) B)
      → ((e : Error) → Quiet d (g e))
      → ((a : A) → Quiet d (f a))
      → Quiet d (case r g f)
  Quiet-case (ok a) g f p q = q a
  Quiet-case (err e) g f p q = p e

  pub Quiet-cache_session : (h : Text) (c : CachedSession) → Quiet d (cache_session d h c)
  unfolding cache_session
  Quiet-cache_session h c = Quiet-bind d (Quiet-read d) λ t.
      Quiet-if (leb (c.expires_at - t.now) 0) (pure tt) _ (Quiet-pure d tt)
        (Quiet-bind d (Quiet-on_cache d _) (λ _. Quiet-pure d tt))

  pub Quiet-get_cached_session : (h : Text) → Quiet d (get_cached_session d h)
  unfolding get_cached_session
  Quiet-get_cached_session h = Quiet-bind d (Quiet-read d) (λ t. Quiet-on_cache d _)

  pub Quiet-delete_session_from_cache : (h : Text) → Quiet d (delete_session_from_cache d h)
  unfolding delete_session_from_cache
  Quiet-delete_session_from_cache h = Quiet-bind d (Quiet-on_cache d _) (λ _. Quiet-pure d tt)

  pub Quiet-delete_each : (hs : List Text) → Quiet d (delete_each d hs)
  unfolding delete_each
  Quiet-delete_each [] = Quiet-pure d tt
  Quiet-delete_each (h ∷ hs) =
      Quiet-bind d (Quiet-delete_session_from_cache h) (λ _. Quiet-delete_each hs)

  Quiet-token_user : (o : Option Text) → Quiet d (token_user d o)
  unfolding token_user
  Quiet-token_user none = Quiet-fail d _ _
  Quiet-token_user (some token) =
      Quiet-bind d (Quiet-read d)
        λ t. Quiet-case _ _ _ (λ _. Quiet-fail d _ _) (λ c. Quiet-pure d c.user_id)

  Quiet-header_user : (o : Option Text) → Quiet d (header_user d o)
  unfolding header_user
  Quiet-header_user none = Quiet-fail d _ _
  Quiet-header_user (some h) = Quiet-token_user (cut_prefix h (bytes "Bearer "))

  Quiet-metadata_user : (o : Option (Map (List Text))) → Quiet d (metadata_user d o)
  unfolding metadata_user
  Quiet-metadata_user none = Quiet-fail d _ _
  Quiet-metadata_user (some md) = Quiet-header_user (first (get (bytes "authorization") md))

  pub Quiet-extract_user_id : (ctx : Context) → Quiet d (extract_user_id d ctx)
  unfolding extract_user_id
  Quiet-extract_user_id ctx = Quiet-metadata_user ctx.metadata

  -- The rules for branches, for every property of the sessions.
  module _ {A B : Type 0} (P : d.Sessions → Type 0) where
    pub Keeps-case :
        (r : Result Error A) (g : Error → Action (State d) B) (f : A → Action (State d) B)
        → ((e : Error) → Keeps d P (g e))
        → ((a : A) → Keeps d P (f a))
        → Keeps d P (case r g f)
    Keeps-case (ok a) g f p q = q a
    Keeps-case (err e) g f p q = p e

    pub Ensures-case :
        (Q : B → d.Sessions → Type 0) (r : Result Error A) (g : Error → Action (State d) B)
        (f : A → Action (State d) B)
        → ((e : Error) → r ≡ err e → Ensures d P (g e) Q)
        → ((a : A) → r ≡ ok a → Ensures d P (f a) Q)
        → Ensures d P (case r g f) Q
    Ensures-case Q (ok a) g f p q = q a refl
    Ensures-case Q (err e) g f p q = p e refl

  module _ {B : Type 0} (P : d.Sessions → Type 0) where
    pub Keeps-if :
        (b : Bool) (m n : Action (State d) B)
        → Keeps d P m
        → Keeps d P n
        → Keeps d P (if b then m else n)
    Keeps-if true m n p q = p
    Keeps-if false m n p q = q

    pub Ensures-if :
        (Q : B → d.Sessions → Type 0) (b : Bool) (m n : Action (State d) B)
        → Ensures d P m Q
        → Ensures d P n Q
        → Ensures d P (if b then m else n) Q
    Ensures-if Q true m n p q = p
    Ensures-if Q false m n p q = q

module _ (d : Deps) where
  -- What is said of nothing but the sessions stays true over a quiet rest.
  pub Ensures-Quiet :
      {A : Type 0} (P : d.Sessions → Type 0) (m : Action (State d) A)
      → Quiet d m
      → Ensures d P m (λ _. P)
  Ensures-Quiet P m q = Ensures-Keeps d P m (Keeps-Quiet d P m q)

  pub Ensures-weaken :
      {A : Type 0} (P : d.Sessions → Type 0) (Q R : A → d.Sessions → Type 0)
      (m : Action (State d) A)
      → ((a : A) (x : d.Sessions) → Q a x → R a x)
      → Ensures d P m Q
      → Ensures d P m R
  Ensures-weaken P Q R m w h = record { at = λ s p a e. w a (m s).1.sessions (h.at s p a e) }

  case-Ensures :
      {A B : Type 0} (P : Result Error A → d.Sessions → Type 0) (P' : A → d.Sessions → Type 0)
      (Q : B → d.Sessions → Type 0) (r : Result Error A) (g : Error → Action (State d) B)
      (f : A → Action (State d) B)
      → ((a : A) (x : d.Sessions) → P (ok a) x → P' a x)
      → ((e : Error) → Ensures d (P (err e)) (g e) Q)
      → ((a : A) → Ensures d (P' a) (f a) Q)
      → Ensures d (P r) (case r g f) Q
  case-Ensures P P' Q (ok a) g f w p q = record { at = λ s h. (q a).at s (w a s.sessions h) }
  case-Ensures P P' Q (err e) g f w p q = p e

  -- A call of the session store whose error ends the handler: the rest starts from what the call
  -- ensures when it succeeds.
  pub Ensures-call :
      {A B : Type 0} (P : d.Sessions → Type 0) (R : A → d.Sessions → Type 0)
      (Q : B → d.Sessions → Type 0) (h : d.Sessions → Result Error A × d.Sessions)
      (g : Error → Action (State d) B) (f : A → Action (State d) B)
      → ((x : d.Sessions) (a : A) → P x → (h x).0 ≡ ok a → R a (h x).1)
      → ((e : Error) → Ensures d (λ _. Unit {0}) (g e) Q)
      → ((a : A) → Ensures d (R a) (f a) Q)
      → Ensures d P (on_sessions {d = d} h >>= λ r. case r g f) Q
  Ensures-call {A} P R Q h g f law p q =
      Ensures-bind d
        (Ensures-on_sessions d P (λ r x. (a : A) → r ≡ ok a → R a x) h (λ x px a e. law x a px e))
        λ r.
          case-Ensures (λ r x. (a : A) → r ≡ ok a → R a x) R Q r g f (λ a x all. all a refl)
            (λ e. record { at = λ s _. (p e).at s tt }) q

  -- A stamp is one of the program's.
  pub Ensures-read :
      {B : Type 0} (P : d.Sessions → Type 0) (Q : B → d.Sessions → Type 0)
      (f : Stamp → Action (State d) B)
      → ((n : ℕ) → Ensures d P (f (d.stamp n)) Q)
      → Ensures d P (read >>= f) Q
  unfolding read ◌>>=◌
  Ensures-read P Q f h = record { at = λ s p. (h s.calls).at (record s { calls = suc s.calls }) p }

module _ (d : Deps) {A B : Type 0} where
  continue-ok :
      (f : A → Action (State d) B) (r : Result Status A) (t : State d) {b : B}
      → (continue r f t).0 ≡ ok b
      → (a : A) × (r ≡ ok a) × (continue r f t ≡ f a t)
  continue-ok f (ok a) t e = (a, refl, refl)
  continue-ok f (err x) t e = cc

  -- A reply of a sequence comes from a value of its first step.
  pub >>=-ok :
      (m : Action (State d) A) (f : A → Action (State d) B) (s : State d) {b : B}
      → ((m >>= f) s).0 ≡ ok b
      → (a : A) × ((m s).0 ≡ ok a) × ((m >>= f) s ≡ f a (m s).1)
  unfolding ◌>>=◌
  >>=-ok m f s e = continue-ok f (m s).0 (m s).1 e

  -- The same where the first step is quiet and the rest ensures something of its value.
  pub Ensures-of_first :
      (P : d.Sessions → Type 0) (Q : A → B → d.Sessions → Type 0) (m : Action (State d) A)
      (f : A → Action (State d) B)
      → Quiet d m
      → ((a : A) → Ensures d P (f a) (Q a))
      → (s : State d) (b : B) → P s.sessions
      → ((m >>= f) s).0 ≡ ok b
      → (a : A) × ((m s).0 ≡ ok a) × Q a b ((m >>= f) s).1.sessions
  Ensures-of_first P Q m f q h s b p e =
      let (a, ma, same) = >>=-ok m f s e in
      (a, ma, rw same ((h a).at (m s).1 (subst P (sym (q.at s)) p) b (rw (← same) e)))

pub ruleset quiet_rules = (
  Quiet-pure, Quiet-fail, Quiet-on_cache, Quiet-on_users, Quiet-on_resets, Quiet-on_guard,
  Quiet-read, Quiet-bind, Quiet-if, Quiet-case, Quiet-valid, Quiet-log_audit, Quiet-fire_hook,
  Quiet-cache_session, Quiet-get_cached_session, Quiet-delete_session_from_cache, Quiet-delete_each,
  Quiet-extract_user_id,
)

pub ruleset keeps_rules =
    (quiet_rules, Keeps-Quiet, Keeps-bind, Keeps-if, Keeps-case, Keeps-on_sessions)
