-- ===== src/Auth/Endings.antt =====
-- internal/service/auth/auth.go: what Logout, LogoutAll and RevokeSession do to the sessions.
use auth_service.Prelude.{
  ℕ, ◌≡◌, refl, sym, ◌∙◌, Text, Option, none, some, if◌then◌else◌, ◌==◌, arith,
}
use auth_service.Ports.{ok, is_session_not_found}
use auth_service.Ports.Laws.{SessionLaws, is_user}
use auth_service.Context.{Context}
use auth_service.Auth.Monad.{Deps, State}
use auth_service.Auth.Helpers.{hash, extract_user_id}
use auth_service.Auth.Rules.{Ensures, Ensures-after, Ensures-fail, Keeps-Quiet}
use auth_service.Auth.Quiet.{
  quiet_rules, Ensures-if, Ensures-call, Ensures-Quiet, Ensures-weaken, Ensures-of_first,
  Quiet-extract_user_id, Quiet-get_cached_session,
}
use auth_service.Auth.Logout.{log_out, log_out_all, revoke_session}

module _ (d : Deps) (laws : SessionLaws d.session_store) where
  open laws use {IsValid, owner}

  -- The store is sound and its sessions belong as in `before`.
  abbrev pub Owned : (Text → Option Text) → d.Sessions → Type 0
  Owned before x = IsValid x × ((k : Text) → owner k x ≡ before k)

  log_out-Ensures :
      (ctx : Context) (token : Text) (before : Text → Option Text)
      → Ensures d
          (Owned before)
          (log_out d ctx token)
          (λ _ x. (k : Text) → owner k x ≡ (if hash d token == k then none else before k))
  unfolding log_out
  log_out-Ensures ctx token before =
      Ensures-after d (Keeps-Quiet d _ _ (Quiet-get_cached_session d _)) λ c.
        Ensures-call d (Owned before)
          (λ _ x. (k : Text) → owner k x ≡ (if hash d token == k then none else before k)) _ _ _ _
          (λ x u (v, o) e k. ground (arith, laws.delete_hash_ok (hash d token) x k v, e, o k))
          (λ e. Ensures-fail d _ _ _ _) (λ u. Ensures-Quiet d _ _ (search quiet_rules depth 12))

  -- Over a session store that keeps its laws, from a sound state: a Logout that is answered
  -- without an error has ended the session of its refresh token and no other: every other hash
  -- belongs as before.
  pub log_out_ends :
      (ctx : Context) (token : Text) (s : State d)
      → IsValid s.sessions
      → (log_out d ctx token s).0 ≡ ok tt
      → (k : Text)
      → owner k (log_out d ctx token s).1.sessions
        ≡ (if hash d token == k then none else owner k s.sessions)
  log_out_ends ctx token s v e =
      (log_out-Ensures ctx token (λ k. owner k s.sessions)).at s (v, λ k. refl) tt e

  -- Over a session store that keeps its laws, from a sound state: a LogoutAll that is answered
  -- without an error has ended all sessions of the user whom the access token names, and no other
  -- session.
  pub log_out_all_ends :
      (ctx : Context) (s : State d) (n : ℕ)
      → IsValid s.sessions
      → (log_out_all d ctx s).0 ≡ ok n
      → (u : Text) × ((extract_user_id d ctx s).0 ≡ ok u)
        × ((k : Text)
            → owner k (log_out_all d ctx s).1.sessions
              ≡ (if is_user u (owner k s.sessions) then none else owner k s.sessions))
  unfolding log_out_all
  log_out_all_ends ctx s n v e =
      Ensures-of_first d (Owned before) (λ u _. Ended u) (extract_user_id d ctx) _
        (Quiet-extract_user_id d ctx)
        (λ u.
          Ensures-call d (Owned before) (λ _. Ended u) _ _ _ _
            (λ x hs (w, o) r k. ground (arith, (laws.delete_all_ok u hs x k w r).1, o k))
            (λ e. Ensures-fail d _ _ _ _) (λ hs. Ensures-Quiet d _ _ (search quiet_rules depth 12)))
        s n (v, λ k. refl) e
    where
      before : Text → Option Text
      before k = owner k s.sessions

      Ended : Text → d.Sessions → Type 0
      Ended u x =
          (k : Text)
          → owner k x ≡ (if is_user u (owner k s.sessions) then none else owner k s.sessions)

  -- Over a session store that keeps its laws, from a sound state: a RevokeSession that is
  -- answered without an error has ended one session, which belonged to the user whom the access
  -- token names; every other hash belongs as before.
  pub revoke_session_ends :
      (ctx : Context) (id : Text) (s : State d)
      → IsValid s.sessions
      → (revoke_session d ctx id s).0 ≡ ok tt
      → (u : Text) × ((extract_user_id d ctx s).0 ≡ ok u)
        × ((h : Text) × (owner h s.sessions ≡ some u)
            × ((k : Text)
                → owner k (revoke_session d ctx id s).1.sessions
                  ≡ (if h == k then none else owner k s.sessions)))
  unfolding revoke_session
  revoke_session_ends ctx id s v e =
      Ensures-of_first d (Owned before) (λ u _ x. (h : Text) × (before h ≡ some u) × Without h x)
        (extract_user_id d ctx) _ (Quiet-extract_user_id d ctx)
        (λ u.
          Ensures-call d (Owned before) (λ h x. (before h ≡ some u) × Without h x) _ _ _ _
            (λ x h (w, o) r. (
              sym (o h) ∙ (laws.delete_id_ok id u h x h w r).0,
              λ k. ground (arith, (laws.delete_id_ok id u h x k w r).1, o k),
            ))
            (λ e.
              Ensures-if d _ _ (is_session_not_found e) _ _ (Ensures-fail d _ _ _ _)
                (Ensures-fail d _ _ _ _))
            (λ h.
              Ensures-weaken d _ _ _ _ (λ _ x p. (h, p.0, p.1))
                (Ensures-Quiet d _ _ (search quiet_rules depth 12))))
        s tt (v, λ k. refl) e
    where
      before : Text → Option Text
      before k = owner k s.sessions

      Without : Text → d.Sessions → Type 0
      Without h x = (k : Text) → owner k x ≡ (if h == k then none else owner k s.sessions)
