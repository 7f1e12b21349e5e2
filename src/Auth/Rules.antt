-- ===== src/Auth/Rules.antt =====
-- internal/service/auth/auth.go: rules for reasoning about what handlers do to the session store.
use auth_service.Prelude.{◌≡◌, refl, sym, ◌∙◌, subst, String}
use auth_service.Ports.{Result, ok, err}
use auth_service.Auth.Monad.{
  Deps, State, Status, Code, Action, pure, fail, continue, read, on_users, on_sessions, on_cache,
  on_resets, on_guard, ◌>>=◌,
}
use auth_service.Bruteforce.{GuardState}

-- The action does not touch the sessions.
pub record Quiet (d : Deps) {A : Type 0} (m : Action (State d) A) : Type 0 where
  pub at : (s : State d) → (m s).1.sessions ≡ s.sessions

-- From sessions in `P`, the action ends in sessions in `P`, whatever it returns.
pub record Keeps (d : Deps) {A : Type 0} (P : d.Sessions → Type 0) (m : Action (State d) A)
    : Type 0 where
  pub at : (s : State d) → P s.sessions → P (m s).1.sessions

-- From sessions in `P`, a reply `a` is given only with sessions in `Q a`.
pub record Ensures (d : Deps) {A : Type 0} (P : d.Sessions → Type 0) (m : Action (State d) A)
    (Q : A → d.Sessions → Type 0) : Type 0 where
  pub at : (s : State d) → P s.sessions → (a : A) → (m s).0 ≡ ok a → Q a (m s).1.sessions

-- From sessions in `P`, no reply is given: the handler answers with an error.
abbrev pub Refuses :
    (d : Deps) {A : Type 0} (P : d.Sessions → Type 0) (m : Action (State d) A) → Type 0
Refuses d P m = Ensures d P m (λ _ _. ⊥)

module _ (d : Deps) where
  module _ {A : Type 0} where
    pub Quiet-pure : (a : A) → Quiet d (pure a)
    Quiet-pure a = record { at = λ s. refl }

    pub Quiet-fail : (c : Code) (m : String) → Quiet d (fail {A = A} c m)
    Quiet-fail c m = record { at = λ s. refl }

    pub Quiet-on_users : (f : d.Users → A × d.Users) → Quiet d (on_users {d = d} f)
    unfolding on_users
    Quiet-on_users f = record { at = λ s. refl }

    pub Quiet-on_cache : (f : d.Cache → A × d.Cache) → Quiet d (on_cache {d = d} f)
    unfolding on_cache
    Quiet-on_cache f = record { at = λ s. refl }

    pub Quiet-on_resets : (f : d.Resets → A × d.Resets) → Quiet d (on_resets {d = d} f)
    unfolding on_resets
    Quiet-on_resets f = record { at = λ s. refl }

    pub Quiet-on_guard :
        (f : GuardState d.Server → A × GuardState d.Server) → Quiet d (on_guard {d = d} f)
    unfolding on_guard
    Quiet-on_guard f = record { at = λ s. refl }

  pub Quiet-read : Quiet d (read {d = d})
  unfolding read
  Quiet-read = record { at = λ s. refl }

  module _ {A : Type 0} where
    -- What is quiet keeps every property of the sessions.
    pub Keeps-Quiet : (P : d.Sessions → Type 0) (m : Action (State d) A) → Quiet d m → Keeps d P m
    Keeps-Quiet P m q = record { at = λ s h. subst P (sym (q.at s)) h }

    pub Keeps-on_sessions :
        (P : d.Sessions → Type 0) (f : d.Sessions → A × d.Sessions)
        → ((x : d.Sessions) → P x → P (f x).1)
        → Keeps d P (on_sessions {d = d} f)
    unfolding on_sessions
    Keeps-on_sessions P f h = record { at = λ s p. h s.sessions p }

    pub Ensures-Keeps :
        (P : d.Sessions → Type 0) (m : Action (State d) A) → Keeps d P m → Ensures d P m (λ _. P)
    Ensures-Keeps P m k = record { at = λ s h a e. k.at s h }

    pub Ensures-pure :
        (P : d.Sessions → Type 0) (Q : A → d.Sessions → Type 0) (a : A)
        → ((x : d.Sessions) → P x → Q a x)
        → Ensures d P (pure a) Q
    Ensures-pure P Q a h = record {
      at = λ s p b e. subst (λ c. Q c s.sessions) (ok_inj e) (h s.sessions p);
    }
      where
        ok_inj : {x y : A} → ◌≡◌ {A = Result Status A} (ok x) (ok y) → x ≡ y
        ok_inj e = cc

    pub Ensures-fail :
        (P : d.Sessions → Type 0) (Q : A → d.Sessions → Type 0) (c : Code) (m : String)
        → Ensures d P (fail c m) Q
    Ensures-fail P Q c m = record { at = λ s p a e. absurd (cc) }

    pub Ensures-on_sessions :
        (P : d.Sessions → Type 0) (Q : A → d.Sessions → Type 0) (f : d.Sessions → A × d.Sessions)
        → ((x : d.Sessions) → P x → Q (f x).0 (f x).1)
        → Ensures d P (on_sessions {d = d} f) Q
    unfolding on_sessions
    Ensures-on_sessions P Q f h = record {
      at = λ s p a e. subst (λ c. Q c (f s.sessions).1) (ok_inj e) (h s.sessions p);
    }
      where
        ok_inj : {x y : A} → ◌≡◌ {A = Result Status A} (ok x) (ok y) → x ≡ y
        ok_inj e = cc

  module _ {A B : Type 0} where
    continue-Quiet :
        (f : A → Action (State d) B)
        → ((a : A) → Quiet d (f a))
        → (r : Result Status A) (t : State d) → (continue r f t).1.sessions ≡ t.sessions
    continue-Quiet f q (ok a) t = (q a).at t
    continue-Quiet f q (err x) t = refl

    pub Quiet-bind :
        {m : Action (State d) A} {f : A → Action (State d) B}
        → Quiet d m
        → ((a : A) → Quiet d (f a))
        → Quiet d (m >>= f)
    unfolding ◌>>=◌
    Quiet-bind {m} {f} q r = record { at = λ s. continue-Quiet f r (m s).0 (m s).1 ∙ q.at s }

    continue-Keeps :
        (P : d.Sessions → Type 0) (f : A → Action (State d) B)
        → ((a : A) → Keeps d P (f a))
        → (r : Result Status A) (t : State d) → P t.sessions
        → P (continue r f t).1.sessions
    continue-Keeps P f q (ok a) t h = (q a).at t h
    continue-Keeps P f q (err x) t h = h

    pub Keeps-bind :
        {P : d.Sessions → Type 0} {m : Action (State d) A} {f : A → Action (State d) B}
        → Keeps d P m
        → ((a : A) → Keeps d P (f a))
        → Keeps d P (m >>= f)
    unfolding ◌>>=◌
    Keeps-bind {P} {m} {f} k r = record {
      at = λ s h. continue-Keeps P f r (m s).0 (m s).1 (k.at s h);
    }

    continue-Ensures :
        (R : A → d.Sessions → Type 0) (Q : B → d.Sessions → Type 0) (f : A → Action (State d) B)
        → ((a : A) → Ensures d (R a) (f a) Q)
        → (r : Result Status A) (t : State d) → ((a : A) → r ≡ ok a → R a t.sessions)
        → (b : B) → (continue r f t).0 ≡ ok b
        → Q b (continue r f t).1.sessions
    continue-Ensures R Q f q (ok a) t h b e = (q a).at t (h a refl) b e
    continue-Ensures R Q f q (err x) t h b e = absurd (cc)

    pub Ensures-bind :
        {P : d.Sessions → Type 0} {R : A → d.Sessions → Type 0} {Q : B → d.Sessions → Type 0}
        {m : Action (State d) A} {f : A → Action (State d) B}
        → Ensures d P m R
        → ((a : A) → Ensures d (R a) (f a) Q)
        → Ensures d P (m >>= f) Q
    unfolding ◌>>=◌
    Ensures-bind {P} {R} {Q} {m} {f} k r = record {
      at = λ s h. continue-Ensures R Q f r (m s).0 (m s).1 (k.at s h);
    }

    -- A step that keeps `P` before the rest.
    pub Ensures-after :
        {P : d.Sessions → Type 0} {Q : B → d.Sessions → Type 0} {m : Action (State d) A}
        {f : A → Action (State d) B}
        → Keeps d P m
        → ((a : A) → Ensures d P (f a) Q)
        → Ensures d P (m >>= f) Q
    Ensures-after {P} {Q} {m} {f} k r = Ensures-bind (Ensures-Keeps P m k) r

    -- A step that gives no reply.
    pub Refuses-bind :
        {P : d.Sessions → Type 0} {Q : B → d.Sessions → Type 0} (m : Action (State d) A)
        (f : A → Action (State d) B)
        → Refuses d P m
        → Ensures d P (m >>= f) Q
    Refuses-bind {P} {Q} m f k =
        Ensures-bind {R = λ _ _. ⊥} k (λ a. record { at = λ s h. absurd h })
