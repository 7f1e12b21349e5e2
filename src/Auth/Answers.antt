-- ===== src/Auth/Answers.antt =====
-- internal/service/auth/auth.go: what handlers answer, whatever the state.
use auth_service.Prelude.{
  ◌≡◌, ℕ, refl, ap, ◌∙◌, Text, Option, none, some, List, Bool, true, false, if◌then◌else◌, leb, ◌-◌,
}
use auth_service.Models.{Stamp}
use auth_service.Ports.{Error, Result, ok, err, CachedSession, EventType}
use auth_service.Auth.Monad.{
  Deps, State, Status, Code, Action, pure, fail, continue, read, on_users, on_sessions, on_cache,
  on_resets, on_guard, spawn, when, case, ◌>>=◌, ◌>>◌,
}
use auth_service.Auth.Helpers.{log_audit, fire_hook, cache_session}
use auth_service.Bruteforce.{GuardState}

-- The action has an answer that is no error.
pub record Answers (d : Deps) {A : Type 0} (m : Action (State d) A) : Type 0 where
  pub at : (s : State d) → (a : A) × ((m s).0 ≡ ok a)

-- The action's answer is one that passes.
pub record Gives (d : Deps) {A : Type 0} (Q : Result Status A → Type 0) (m : Action (State d) A)
    : Type 0 where
  pub at : (s : State d) → Q (m s).0

module _ (d : Deps) where
  module _ {A : Type 0} where
    pub Answers-pure : (a : A) → Answers d (pure a)
    Answers-pure a = record { at = λ s. (a, refl) }

    pub Answers-on_users : (f : d.Users → A × d.Users) → Answers d (on_users {d = d} f)
    unfolding on_users
    Answers-on_users f = record { at = λ s. ((f s.users).0, refl) }

    pub Answers-on_cache : (f : d.Cache → A × d.Cache) → Answers d (on_cache {d = d} f)
    unfolding on_cache
    Answers-on_cache f = record { at = λ s. ((f s.cache).0, refl) }

    pub Answers-on_resets : (f : d.Resets → A × d.Resets) → Answers d (on_resets {d = d} f)
    unfolding on_resets
    Answers-on_resets f = record { at = λ s. ((f s.resets).0, refl) }

    pub Answers-on_guard :
        (f : GuardState d.Server → A × GuardState d.Server) → Answers d (on_guard {d = d} f)
    unfolding on_guard
    Answers-on_guard f = record { at = λ s. ((f s.guard).0, refl) }

    pub Answers-if :
        {m k : Action (State d) A}
        → (b : Bool) → Answers d m
        → Answers d k
        → Answers d (if b then m else k)
    Answers-if true h g = h
    Answers-if false h g = g

    pub Gives-fail :
        (Q : Result Status A → Type 0) (c : Code) (m : auth_service.Prelude.String)
        → Q (err (record { code = c; message = m }))
        → Gives d Q (fail c m)
    Gives-fail Q c m h = record { at = λ s. h }

    pub Gives-if :
        {m k : Action (State d) A} (Q : Result Status A → Type 0)
        → (b : Bool) → Gives d Q m
        → Gives d Q k
        → Gives d Q (if b then m else k)
    Gives-if Q true h g = h
    Gives-if Q false h g = g

  pub Answers-read : Answers d (read {d = d})
  unfolding read
  Answers-read = record { at = λ s. (d.stamp s.calls, refl) }

  module _ {A B : Type 0} where
    continue-Answers :
        (f : A → Action (State d) B)
        → ((a : A) → Answers d (f a))
        → (r : Result Status A) (t : State d) → (a : A) × (r ≡ ok a)
        → (b : B) × ((continue r f t).0 ≡ ok b)
    continue-Answers f q (ok a) t h = (q a).at t
    continue-Answers f q (err e) t (a, h) = absurd (cc)

    pub Answers-bind :
        {m : Action (State d) A} {f : A → Action (State d) B}
        → Answers d m
        → ((a : A) → Answers d (f a))
        → Answers d (m >>= f)
    unfolding ◌>>=◌
    Answers-bind {m} {f} q r = record { at = λ s. continue-Answers f r (m s).0 (m s).1 (q.at s) }

    continue-Gives :
        (Q : Result Status B → Type 0) (f : A → Action (State d) B)
        → ((a : A) → Gives d Q (f a))
        → (r : Result Status A) (t : State d) → (a : A) × (r ≡ ok a)
        → Q (continue r f t).0
    continue-Gives Q f q (ok a) t h = (q a).at t
    continue-Gives Q f q (err e) t (a, h) = absurd (cc)

    pub Gives-bind :
        {Q : Result Status B → Type 0} {m : Action (State d) A} {f : A → Action (State d) B}
        → Answers d m
        → ((a : A) → Gives d Q (f a))
        → Gives d Q (m >>= f)
    unfolding ◌>>=◌
    Gives-bind {Q} {m} {f} q r = record { at = λ s. continue-Gives Q f r (m s).0 (m s).1 (q.at s) }

  pub Answers-log_audit :
      (u : Option Text) (e : EventType) (ip ua : Text) (meta : List (Text × Text))
      → Answers d (log_audit d u e ip ua meta)
  unfolding log_audit spawn
  Answers-log_audit u e ip ua meta = by d.has_audit
    where
      by :
          (b : Bool)
          → Answers d (
              when b (
                spawn {d = d} (
                  auth_service.Auth.Monad.audit (record {
                    user_id = u;
                    event_type = e;
                    ip_address = ip;
                    user_agent = ua;
                    metadata = meta;
                  }))))
      by true = record { at = λ s. (tt, refl) }
      by false = record { at = λ s. (tt, refl) }

  pub Answers-fire_hook :
      (u m : Text) (e : EventType) (ip ua : Text) (meta : List (Text × Text))
      → Answers d (fire_hook d u m e ip ua meta)
  unfolding fire_hook spawn
  Answers-fire_hook u m e ip ua meta = record { at = λ s. (tt, refl) }

  pub Answers-cache_session : (h : Text) (c : CachedSession) → Answers d (cache_session d h c)
  unfolding cache_session
  Answers-cache_session h c = Answers-bind Answers-read λ t.
      Answers-if (leb (c.expires_at - t.now) 0) (Answers-pure tt)
        (Answers-bind (Answers-on_cache _) λ _. Answers-pure tt)

  -- What follows a stamp.
  module _ {B : Type 0} where
    pub Answers-read_bind :
        (f : Stamp → Action (State d) B)
        → ((n : ℕ) → Answers d (f (d.stamp n)))
        → Answers d (read {d = d} >>= f)
    unfolding ◌>>=◌ read
    Answers-read_bind f q = record { at = λ s. (q s.calls).at _ }

  module _ {A B : Type 0} where
    -- What follows a call of the session store, and a result that is known.
    pub Answers-call :
        (g : d.Sessions → A × d.Sessions) (f : A → Action (State d) B)
        → ((x : d.Sessions) → Answers d (f (g x).0))
        → Answers d (on_sessions {d = d} g >>= f)
    unfolding ◌>>=◌ on_sessions
    Answers-call g f q = record { at = λ s. (q s.sessions).at _ }

    pub Answers-case :
        (r : Result Error A) (g : Error → Action (State d) B) (f : A → Action (State d) B)
        → (a : A) × (r ≡ ok a)
        → ((a : A) → Answers d (f a))
        → Answers d (case r g f)
    Answers-case r g f (a, e) q = by r e
      where
        by : (r : Result Error A) → r ≡ ok a → Answers d (case r g f)
        by (ok b) e = q b
        by (err x) e = absurd (cc)
