-- ===== src/Auth/Passwords.antt =====
-- internal/service/auth/auth.go: ChangePassword and ResetPassword end the user's sessions.
use auth_service.Prelude.{◌≡◌, refl, sym, ◌∙◌, ap, Text, Option, none, List, if◌then◌else◌, arith}
use auth_service.Models.{User}
use auth_service.Ports.{Error, Result, ok, err, ResetTokenRecord}
use auth_service.Ports.Laws.{SessionLaws, is_user, is_other}
use auth_service.Context.{Context}
use auth_service.Validate.{check_password}
use auth_service.Auth.Monad.{Deps, State, Action, read, case, on_sessions, on_resets, ◌>>=◌}
use auth_service.Auth.Helpers.{hash, extract_user_id}
use auth_service.Auth.Rules.{
  Ensures, Ensures-after, Ensures-bind, Ensures-on_sessions, Ensures-fail, Quiet,
}
use auth_service.Auth.Quiet.{
  keeps_rules, Ensures-if, Ensures-case, Ensures-Quiet, Ensures-of_first, Quiet-extract_user_id,
}
use auth_service.Auth.Account.{ChangePasswordRequest, keep_hash, replace_password, change_password}
use auth_service.Auth.Reset.{ResetRequest, set_password, use_token, redeem, reset_password}
use auth_service.Auth.Endings.{Owned}
use auth_service.Auth.Admission.{valid-ok}

ruleset password_rules = (keeps_rules, Ensures-after, Ensures-fail, Ensures-if, Ensures-case)

module _ (d : Deps) where
  -- The store never fails to delete sessions.
  abbrev pub AllDeleted : Type 0
  AllDeleted =
      (u : Text) (x : d.Sessions)
      → (hs : List Text) × ((d.session_store.delete_all_by_user_id u x).0 ≡ ok hs)

  abbrev pub OthersDeleted : Type 0
  OthersDeleted =
      (u keep : Text) (x : d.Sessions)
      → (hs : List Text) × ((d.session_store.delete_all_by_user_id_except u keep x).0 ≡ ok hs)

module _ (d : Deps) (laws : SessionLaws d.session_store) (before : Text → Option Text) where
  open laws use {IsValid, owner}

  -- The sessions of the user are gone.
  abbrev Gone : Text → d.Sessions → Type 0
  Gone u x = (k : Text) → owner k x ≡ (if is_user u (before k) then none else before k)

  -- The sessions of the user but that of one hash are gone.
  abbrev Cleared : Text → Text → d.Sessions → Type 0
  Cleared u keep x =
      (k : Text) → owner k x ≡ (if is_other u keep k (before k) then none else before k)

  module _ (all : AllDeleted d) where
    set_password-Gone :
        (ctx : Context) (token : ResetTokenRecord) (h : Text)
        → Ensures d (Owned d laws before) (set_password d ctx token h) (λ _. Gone token.user_id)
    unfolding set_password
    set_password-Gone ctx token h = search (password_rules, delete_all) depth 14
      where
        delete_all :
            (f : Result Error (List Text) → Action (State d) (Unit {0}))
            → ((r : Result Error (List Text)) → Quiet d (f r))
            → Ensures d
                (Owned d laws before)
                (on_sessions (d.session_store.delete_all_by_user_id token.user_id) >>= f)
                (λ _. Gone token.user_id)
        delete_all f q =
            Ensures-bind d
              (Ensures-on_sessions d (Owned d laws before) (λ _. Gone token.user_id) _
                (λ x (v, o) k.
                  let (hs, e) = all token.user_id x in
                  ground (arith, (laws.delete_all_ok token.user_id hs x k v e).1, o k)))
              (λ r. Ensures-Quiet d _ _ (q r))

    use_token-Gone :
        (ctx : Context) (req : ResetRequest) (token : ResetTokenRecord)
        → Ensures d (Owned d laws before) (use_token d ctx req token) (λ _. Gone token.user_id)
    unfolding use_token
    use_token-Gone ctx req token = search (password_rules, set_password-Gone) depth 14

  module _ (others : OthersDeleted d) where
    replace_password-Cleared :
        (ctx : Context) (req : ChangePasswordRequest) (u : User) (id h : Text)
        → Ensures d
            (Owned d laws before)
            (replace_password d ctx req u id h)
            (λ _. Cleared id (keep_hash (hash d) req.refresh_token))
    unfolding replace_password
    replace_password-Cleared ctx req u id h = search (password_rules, delete_others) depth 14
      where
        delete_others :
            (keep : Text) (f : Result Error (List Text) → Action (State d) (Unit {0}))
            → ((r : Result Error (List Text)) → Quiet d (f r))
            → Ensures d
                (Owned d laws before)
                (on_sessions (d.session_store.delete_all_by_user_id_except id keep) >>= f)
                (λ _. Cleared id keep)
        delete_others keep f q =
            Ensures-bind d
              (Ensures-on_sessions d (Owned d laws before) (λ _. Cleared id keep) _
                (λ x (v, o) k.
                  let (hs, e) = others id keep x in
                  ground (arith, (laws.delete_others_ok id keep hs x k v e).1, o k)))
              (λ r. Ensures-Quiet d _ _ (q r))

module _ (d : Deps) (laws : SessionLaws d.session_store) where
  open laws use {IsValid, owner}

  -- Over a session store that keeps its laws, from a sound state: a ChangePassword that is
  -- answered without an error, over a store that never fails to delete, has ended the sessions of
  -- the user whom the access token names but that of the refresh token given, and no session of
  -- others.
  pub change_password_ends :
      (ctx : Context) (req : ChangePasswordRequest) (s : State d)
      → OthersDeleted d
      → IsValid s.sessions
      → (change_password d ctx req s).0 ≡ ok tt
      → (u : Text) × ((extract_user_id d ctx s).0 ≡ ok u)
        × ((k : Text)
            → owner k (change_password d ctx req s).1.sessions ≡ (
                if is_other u (keep_hash (hash d) req.refresh_token) k (owner k s.sessions)
                then none
                else owner k s.sessions))
  unfolding change_password
  change_password_ends ctx req s others v e =
      Ensures-of_first d (Owned d laws before) (λ u _. Cleared d laws before u keep)
        (extract_user_id d ctx) _ (Quiet-extract_user_id d ctx)
        (λ u. search (password_rules, replaced) depth 14) s tt (v, λ k. refl) e
    where
      before : Text → Option Text
      before k = owner k s.sessions

      keep : Text
      keep = keep_hash (hash d) req.refresh_token

      replaced :
          (c : Context) (u : User) (id h : Text)
          → Ensures d
              (Owned d laws before)
              (replace_password d c req u id h)
              (λ _. Cleared d laws before id keep)
      replaced c u id h = replace_password-Cleared d laws before others c req u id h

  redeem-Gone :
      (ctx : Context) (req : ResetRequest) (s : State d)
      → AllDeleted d
      → (before : Text → Option Text) → Owned d laws before s.sessions
      → (redeem d ctx req s).0 ≡ ok tt
      → (token : ResetTokenRecord) × ((d.reset_store.get_reset_token
            (d.stamp s.calls)
            (hash d req.reset_token)
            s.resets).0
          ≡ ok token)
        × Gone d laws before token.user_id (redeem d ctx req s).1.sessions
  unfolding redeem ◌>>=◌ read on_resets
  redeem-Gone ctx req s all before p e = by _ _ p e
    where
      by :
          (r : Result Error ResetTokenRecord) (t : State d)
          → Owned d laws before t.sessions
          → (case r (auth_service.Auth.Reset.bad_token d) (use_token d ctx req) t).0 ≡ ok tt
          → (token : ResetTokenRecord) × (r ≡ ok token)
            × Gone d laws before token.user_id
                (case r (auth_service.Auth.Reset.bad_token d) (use_token d ctx req) t).1.sessions
      by (ok token) t q e =
          (token, refl, (use_token-Gone d laws before all ctx req token).at t q tt e)
      by (err x) t q e = absurd ((refused x).at t tt tt e)
        where
          refused :
              (x : Error)
              → Ensures d (λ _. Unit {0}) (auth_service.Auth.Reset.bad_token d x) (λ _ _. ⊥)
          refused x = search password_rules depth 6

  -- Over a session store that keeps its laws, from a sound state: a ResetPassword that is
  -- answered without an error, over a store that never fails to delete, found its reset token in
  -- the store, and has ended all sessions of the token's user and no other.
  pub reset_password_ends :
      (ctx : Context) (req : ResetRequest) (s : State d)
      → AllDeleted d
      → IsValid s.sessions
      → (reset_password d ctx req s).0 ≡ ok tt
      → (token : ResetTokenRecord) × ((d.reset_store.get_reset_token
            (d.stamp s.calls)
            (hash d req.reset_token)
            s.resets).0
          ≡ ok token)
        × ((k : Text)
            → owner k (reset_password d ctx req s).1.sessions
              ≡ (if is_user token.user_id (owner k s.sessions) then none else owner k s.sessions))
  unfolding reset_password
  reset_password_ends ctx req s all v e =
      let (_, same) = valid-ok d (check_password d.is_letter d.is_digit req.new_password) _ s e in
      let (token, found, gone) =
        redeem-Gone ctx req s all (λ k. owner k s.sessions) (v, λ k. refl)
          (sym (ap (λ x. x.0) same) ∙ e) in
      (token, found, λ k. ap (λ x. owner k x.1.sessions) same ∙ gone k)
