-- ===== src/Auth/Rotation.antt =====
-- internal/service/auth/auth.go: RefreshToken takes the old token out and puts the new one in.
use auth_service.Prelude.{
  ◌⊎◌, ltb, ℕ, ◌≡◌, ◌≢◌, inl, inr, refl, sym, ◌∙◌, ap, subst, Text, Option, none, some, List,
  if◌then◌else◌, ◌==◌, Bool-cases, Option-cases, arith,
}
use auth_service.Models.{Session, Stamp}
use auth_service.Ports.{Error, Result, ok, err, CachedSession, is_session_not_found}
use auth_service.Ports.Laws.{SessionLaws}
use auth_service.Context.{Context}
use auth_service.Token
use auth_service.Auth.Monad.{
  Deps, State, unauthenticated, Action, pure, fail, case, read, on_cache, on_sessions, ◌>>=◌,
}
use auth_service.Auth.Helpers.{hash, internal_error, get_cached_session}
use auth_service.Auth.Rules.{
  Keeps, Ensures, Ensures-after, Ensures-fail, Ensures-pure, Keeps-Quiet, Quiet-read,
}
use auth_service.Auth.Quiet.{
  keeps_rules, Ensures-if, Ensures-case, Ensures-call, Ensures-weaken, >>=-ok,
}
use auth_service.Auth.Login.{Tokens}
use auth_service.Auth.Refresh.{
  RefreshRequest, cached_of, find_session, drop_expired, exchange, rotate, refresh_token,
}
use auth_service.Auth.Endings.{Owned}

ruleset reply_rules = (keeps_rules, Ensures-after, Ensures-fail)

-- A generated token comes with its own hash.
pub generate-hash :
    (sha256 : List ℕ → List ℕ) (t : Stamp) (r : Text × Text)
    → Token.generate sha256 t ≡ ok r
    → r.1 ≡ Token.hash sha256 r.0
unfolding Token.generate Token.hash
generate-hash sha256 t r e = elim (Option-cases (t.entropy 32)) [
  | inl x ↦ ground arith
  | inr (b, x) ↦ ground arith
]

module _ (d : Deps) where
  -- The last step of a handler, whose reply is known.
  pub Ensures-reply :
      {A : Type 0} (P : d.Sessions → Type 0) (a : A) → Ensures d P (pure a) (λ r x. (r ≡ a) × P x)
  Ensures-reply P a = Ensures-pure d P _ a (λ x p. (refl, p))

module _ (d : Deps) (laws : SessionLaws d.session_store) (before : Text → Option Text) where
  open laws use {IsValid, owner}

  -- The session of `new` stands in place of that of `old`; every other hash belongs as before.
  abbrev Moved : Text → Text → Text → d.Sessions → Type 0
  Moved old new u x =
      (before old ≢ none)
      × ((k : Text)
          → owner k x ≡ (if new == k then some u else if old == k then none else before k))

  get-Owned :
      (t : Stamp) (h : Text) (x : d.Sessions)
      → Owned d laws before x
      → Owned d laws before (d.session_store.get_by_token_hash t h x).1
  get-Owned t h x (v, o) = (laws.get_valid t h x v, λ k. laws.get_owner t h x k v ∙ o k)

  find_session-Owned : (h : Text) → Keeps d (Owned d laws before) (find_session d h)
  unfolding find_session
  find_session-Owned h = search (keeps_rules, get-Owned) depth 14

  rotate_token-Moved :
      (t : Stamp) (h : Text) (y z : Session) (x : d.Sessions)
      → Owned d laws before x
      → (d.session_store.rotate_token t h y x).0 ≡ ok z
      → Moved h y.token_hash y.user_id (d.session_store.rotate_token t h y x).1
  rotate_token-Moved t h y z x (v, o) e = (
    λ n. (laws.rotate_ok t h y z x h v e).0 (o h ∙ n),
    λ k. ground (arith, (laws.rotate_ok t h y z x k v e).1, o k),
  )

  exchange-Ensures :
      (h : Text) (c : CachedSession) (y : Session) (tokens : Tokens) (ip ua : Text)
      → Ensures d
          (Owned d laws before)
          (exchange d h c y tokens ip ua)
          (λ r x. (r ≡ tokens) × Moved h y.token_hash y.user_id x)
  unfolding exchange
  exchange-Ensures h c y tokens ip ua = Ensures-after d (Keeps-Quiet d _ _ (Quiet-read d)) λ t.
      Ensures-call d (Owned d laws before) (λ _. Moved h y.token_hash y.user_id) _ _ _ _
        (λ x z. rotate_token-Moved t h y z x)
        (λ e.
          Ensures-if d _ _ (is_session_not_found e) _ _ (Ensures-fail d _ _ _ _)
            (Ensures-fail d _ _ _ _))
        (λ z. search (reply_rules, Ensures-reply) depth 14)

  -- The reply's refresh token has the session, which belongs to this user.
  abbrev Exchanged : Text → Text → Tokens → d.Sessions → Type 0
  Exchanged u old r x = Moved old (hash d r.refresh_token) u x

  exchange-Exchanged :
      (h : Text) (c : CachedSession) (y : Session) (tokens : Tokens) (ip ua : Text)
      → y.token_hash ≡ hash d tokens.refresh_token
      → Ensures d (Owned d laws before) (exchange d h c y tokens ip ua) (Exchanged y.user_id h)
  exchange-Exchanged h c y tokens ip ua g =
      Ensures-weaken d _ _ _ _
        (λ r x (e, m).
          subst (λ n. Moved h n y.user_id x) (g ∙ ap (λ t. hash d t.refresh_token) (sym e)) m)
        (exchange-Ensures h c y tokens ip ua)

  rotate-Ensures :
      (ctx : Context) (req : RefreshRequest) (h : Text) (c : CachedSession)
      → Ensures d (Owned d laws before) (rotate d ctx req h c) (Exchanged c.user_id h)
  unfolding rotate hash
  rotate-Ensures ctx req h c =
      search (reply_rules, Ensures-case, exchange-Exchanged, generate-hash) depth 20

  drop_expired-Ensures :
      (u h : Text) → Ensures d (Owned d laws before) (drop_expired d h) (Exchanged u h)
  unfolding drop_expired
  drop_expired-Ensures u h = record { at = λ s p. (none_left).at s tt }
    where
      none_left : Ensures d (λ _. Unit {0}) (drop_expired d h) (Exchanged u h)
      none_left = search (reply_rules) depth 12

  -- RefreshToken behind the lookup of the session.
  abbrev renew : Context → RefreshRequest → Text → CachedSession → Action (State d) Tokens
  renew ctx req h c = read {d = d} >>= λ t.
      if ltb c.expires_at t.now then drop_expired d h else rotate d ctx req h c

  renew-Ensures :
      (ctx : Context) (req : RefreshRequest) (h : Text) (c : CachedSession)
      → Ensures d (Owned d laws before) (renew ctx req h c) (Exchanged c.user_id h)
  renew-Ensures ctx req h c =
      search (reply_rules, Ensures-if, drop_expired-Ensures, rotate-Ensures) depth 12

  refresh_token-Exchanged :
      (ctx : Context) (req : RefreshRequest) (s : State d) (r : Tokens)
      → Owned d laws before s.sessions
      → (refresh_token d ctx req s).0 ≡ ok r
      → (c : CachedSession) × ((find_session d (hash d req.refresh_token) s).0 ≡ ok c)
        × Exchanged c.user_id (hash d req.refresh_token) r (refresh_token d ctx req s).1.sessions
  unfolding refresh_token
  refresh_token-Exchanged ctx req s r o e =
      let h = hash d req.refresh_token in
      let (c, found, same) = >>=-ok d (find_session d h) (renew ctx req h) s e in
      (
        c,
        found,
        rw same (
            (renew-Ensures ctx req h c).at (find_session d h s).1 ((find_session-Owned h).at s o) r
              (rw (← same) e)),
      )

module _ (d : Deps) (laws : SessionLaws d.session_store) where
  open laws use {IsValid, owner}

  -- The user that a session's lookup names: the cache's, or on a miss the one of the hash.
  abbrev pub NamedBy : Text → State d → Text → Type 0
  NamedBy h s u =
      ((c : CachedSession) × ((d.session_cache.get (d.stamp s.calls) h s.cache).0 ≡ ok c)
        × (c.user_id ≡ u))
      ⊎ ((e : Error) × ((d.session_cache.get (d.stamp s.calls) h s.cache).0 ≡ err e)
          × (owner h s.sessions ≡ some u))

  -- What find_session makes of the store's answer.
  abbrev from_store : Result Error Session → Action (State d) CachedSession
  from_store r =
      case r
        (λ e.
          if is_session_not_found e
          then fail unauthenticated "invalid refresh token"
          else internal_error d)
        (λ x. pure (cached_of x))

  from_store-ok :
      (r : Result Error Session) (s : State d) (c : CachedSession)
      → (from_store r s).0 ≡ ok c
      → (x : Session) × (r ≡ ok x) × (x.user_id ≡ c.user_id)
  from_store-ok (ok x) s c e = (x, refl, cc)
  from_store-ok (err f) s c e = elim (Bool-cases (is_session_not_found f)) [
    | inl b ↦ absurd (ground arith)
    | inr b ↦ absurd (ground arith)
  ]

  -- The lookup in the store, after a miss.
  abbrev search_store : Text → Action (State d) CachedSession
  search_store h = read {d = d} >>= λ t.
      on_sessions {d = d} (d.session_store.get_by_token_hash t h) >>= from_store

  search_store-owner :
      (h : Text) (s : State d) (c : CachedSession)
      → IsValid s.sessions
      → (search_store h s).0 ≡ ok c
      → owner h s.sessions ≡ some c.user_id
  unfolding ◌>>=◌ read on_sessions
  search_store-owner h s c v e =
      let (x, found, same) =
        from_store-ok (d.session_store.get_by_token_hash (d.stamp s.calls) h s.sessions).0 _ c e in
      laws.get_ok (d.stamp s.calls) h x s.sessions v found ∙ ap some same

  find_session-NamedBy :
      (h : Text) (s : State d) (c : CachedSession)
      → IsValid s.sessions
      → (find_session d h s).0 ≡ ok c
      → NamedBy h s c.user_id
  unfolding find_session get_cached_session ◌>>=◌ read on_cache
  find_session-NamedBy h s c v e = by (d.session_cache.get (d.stamp s.calls) h s.cache).0 refl e
    where
      after : State d
      after = (get_cached_session d h s).1

      by :
          (r : Result Error CachedSession)
          → (d.session_cache.get (d.stamp s.calls) h s.cache).0 ≡ r
          → (case r (λ _. search_store h) pure after).0 ≡ ok c
          → NamedBy h s c.user_id
      by (ok x) f e = inl (x, f, cc)
      by (err x) f e = inr (x, f, search_store-owner h after c v e)

  -- Over a session store that keeps its laws, from a sound state: a RefreshToken that is answered
  -- with tokens found a session under the old token's hash; now the new refresh token's hash belongs
  -- to the user whom the cache names for the old hash, or where the read of the cache fails to
  -- the user to whom the old hash belonged; the old hash belongs to none unless the new one is the
  -- same, and every other hash belongs as before.
  pub refresh_token_rotates :
      (ctx : Context) (req : RefreshRequest) (s : State d) (r : Tokens)
      → IsValid s.sessions
      → (refresh_token d ctx req s).0 ≡ ok r
      → (owner (hash d req.refresh_token) s.sessions ≢ none)
        × ((u : Text) × NamedBy (hash d req.refresh_token) s u
            × ((k : Text)
                → owner k (refresh_token d ctx req s).1.sessions ≡ (
                    if hash d r.refresh_token == k
                    then some u
                    else if hash d req.refresh_token == k
                    then none
                    else owner k s.sessions)))
  refresh_token_rotates ctx req s r v e =
      let (c, found, moved) =
        refresh_token-Exchanged d laws (λ k. owner k s.sessions) ctx req s r (v, λ k. refl) e in
      (moved.0, (c.user_id, find_session-NamedBy (hash d req.refresh_token) s c v found, moved.1))
