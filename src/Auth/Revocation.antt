-- ===== src/Auth/Revocation.antt =====
-- internal/service/auth/auth.go: a refresh token without a session is good for nothing, and which
-- handlers take the session away.
use auth_service.Prelude.{◌≡◌, ◌≢◌, inl, inr, refl, Text, none, List, Option-cases, arith}
use auth_service.Models.{Session, Stamp}
use auth_service.Ports.{Error, Result, ok, err, CachedSession, is_session_not_found}
use auth_service.Ports.Laws.{SessionLaws}
use auth_service.Context.{Context}
use auth_service.Auth.Monad.{Deps, State, Action, case, on_sessions}
use auth_service.Auth.Helpers.{hash}
use auth_service.Auth.Rules.{
  Ensures, Refuses, Ensures-after, Ensures-bind, Ensures-fail, Ensures-on_sessions, Keeps-Quiet,
  Quiet-read,
}
use auth_service.Auth.Quiet.{keeps_rules, Ensures-if, Ensures-case}
use auth_service.Auth.Login.{Tokens}
use auth_service.Auth.Refresh.{RefreshRequest, drop_expired, exchange, rotate, refresh_token}
use auth_service.Auth.Service.{Request, run}
use auth_service.Auth.Within.{
  Within, NoneOpens, find_session-Within, delete_hash-Within, run-Within,
}

ruleset refusal_rules = (keeps_rules, Ensures-after, Ensures-fail, Ensures-if, Ensures-case)

module _ (d : Deps) (laws : SessionLaws d.session_store) where
  open laws use {IsValid, owner}

  -- No session is stored under the hash.
  abbrev pub Absent : Text → d.Sessions → Type 0
  Absent k = Within d laws (λ j u. j ≢ k)

  pub none-Absent : (k : Text) (x : d.Sessions) → IsValid x → owner k x ≡ none → Absent k x
  none-Absent k x v e = (v, λ j u o c. ground arith)

  pub owner-Absent : (k : Text) (x : d.Sessions) → Absent k x → owner k x ≡ none
  owner-Absent k x a = elim (Option-cases (owner k x)) [
    | inl e ↦ e
    | inr (u, e) ↦ absurd (a.1 k u e refl)
  ]

  -- RotateToken fails on a hash without a session.
  rotate_token-err :
      (t : Stamp) (h : Text) (y : Session) (x : d.Sessions)
      → Absent h x
      → (z : Session) → (d.session_store.rotate_token t h y x).0 ≢ ok z
  rotate_token-err t h y x a z e = (laws.rotate_ok t h y z x h a.0 e).0 (owner-Absent h x a)

  on_rotate-Ensures :
      (t : Stamp) (h : Text) (y : Session)
      → Ensures d
          (Absent h)
          (on_sessions {d = d} (d.session_store.rotate_token t h y))
          (λ r x. (z : Session) → r ≢ ok z)
  on_rotate-Ensures t h y = Ensures-on_sessions d _ _ _ (λ x a. rotate_token-err t h y x a)

  -- After a failed call its error is handled.
  refused-case :
      {A B : Type 0} (r : Result Error A) (g : Error → Action (State d) B)
      (f : A → Action (State d) B)
      → ((e : Error) → Refuses d (λ x. (z : A) → r ≢ ok z) (g e))
      → Refuses d (λ x. (z : A) → r ≢ ok z) (case r g f)
  refused-case (ok a) g f h = record { at = λ s p b e. p a refl }
  refused-case (err e) g f h = h e

  drop_expired-Refuses : (k h : Text) → Refuses d (Absent k) (drop_expired d h)
  unfolding drop_expired
  drop_expired-Refuses k h = search (refusal_rules, delete_hash-Within) depth 12

  exchange-Refuses :
      (h : Text) (c : CachedSession) (y : Session) (tokens : Tokens) (ip ua : Text)
      → Refuses d (Absent h) (exchange d h c y tokens ip ua)
  unfolding exchange
  exchange-Refuses h c y tokens ip ua = Ensures-after d (Keeps-Quiet d _ _ (Quiet-read d)) λ t.
      Ensures-bind d (on_rotate-Ensures t h y) λ r. refused-case r _ _ λ e.
        Ensures-if d _ _ (is_session_not_found e) _ _ (Ensures-fail d _ _ _ _)
          (Ensures-fail d _ _ _ _)

  rotate-Refuses :
      (ctx : Context) (req : RefreshRequest) (h : Text) (c : CachedSession)
      → Refuses d (Absent h) (rotate d ctx req h c)
  unfolding rotate
  rotate-Refuses ctx req h c = search (refusal_rules, exchange-Refuses) depth 20

  refresh_token-Refuses :
      (ctx : Context) (req : RefreshRequest)
      → Refuses d (Absent (hash d req.refresh_token)) (refresh_token d ctx req)
  unfolding refresh_token
  refresh_token-Refuses ctx req =
      search (refusal_rules, find_session-Within, drop_expired-Refuses, rotate-Refuses) depth 12

  -- Over a session store that keeps its laws, from a sound state: once its session is gone, a
  -- refresh token stays refused after any calls other than Login and RefreshToken.
  pub revoked_stays_refused :
      (rs : List Request) (ctx : Context) (req : RefreshRequest) (s : State d)
      → NoneOpens rs
      → IsValid s.sessions
      → owner (hash d req.refresh_token) s.sessions ≡ none
      → (r : Tokens) → (refresh_token d ctx req (run d rs s)).0 ≢ ok r
  revoked_stays_refused rs ctx req s n v e r c =
      (refresh_token-Refuses ctx req).at (run d rs s)
        (run-Within d laws _ rs s n (none-Absent _ s.sessions v e)) r c
