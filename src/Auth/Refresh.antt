-- ===== src/Auth/Refresh.antt =====
-- internal/service/auth/auth.go: RefreshToken.
use auth_service.Prelude.{◌+◌, Text, some, [], ◌∷◌, bytes, ltb, if◌then◌else◌}
use auth_service.Models.{Session}
use auth_service.Context.{Context, extract_client_info}
use auth_service.Token
use auth_service.Ports.{is_session_not_found, CachedSession, token_refresh}
use auth_service.Auth.Login.{Tokens, user_roles, or_default, new_session}
use auth_service.Auth.Monad.{
  Deps, State, unauthenticated, Action, pure, fail, case, read, on_sessions, ◌>>=◌, ◌>>◌,
}
use auth_service.Auth.Helpers.{
  hash, internal_error, log_audit, fire_hook, cache_session, get_cached_session,
  delete_session_from_cache,
}

pub record RefreshRequest : Type 0 where
  pub refresh_token : Text
  pub device_id : Text

-- The part of a stored session that the cache holds.
abbrev pub cached_of : Session → CachedSession
cached_of x = record {
  session_id = x.id;
  user_id = x.user_id;
  user_email = x.user_email;
  device_id = x.device_id;
  expires_at = x.expires_at;
}

module _ (d : Deps) where
  -- The session of a token: from the cache, or on a miss from the store.
  unfoldable pub find_session : Text → Action (State d) CachedSession
  find_session token_hash = do
    c ← get_cached_session d token_hash
    case c
        (λ _. do
          t ← read
          r ← on_sessions (d.session_store.get_by_token_hash t token_hash)
          case r
              (λ e.
                if is_session_not_found e
                then fail unauthenticated "invalid refresh token"
                else internal_error d)
              (λ x. pure (cached_of x)))
        pure

  -- The answer to an expired token, whose session goes.
  unfoldable pub drop_expired : Text → Action (State d) Tokens
  drop_expired token_hash = do
    _ ← on_sessions (d.session_store.delete_by_token_hash token_hash)
    delete_session_from_cache d token_hash
    fail unauthenticated "refresh token expired"

  -- RefreshToken from RotateToken on: `sess` takes the place of the session of `token_hash`.
  unfoldable pub exchange :
      Text → CachedSession → Session → Tokens → Text → Text → Action (State d) Tokens
  exchange token_hash cached sess tokens ip ua = do
    t ← read
    r ← on_sessions (d.session_store.rotate_token t token_hash sess)
    case r
        (λ e.
          if is_session_not_found e
          then fail unauthenticated "invalid refresh token"
          else internal_error d)
        λ stored. do
          delete_session_from_cache d token_hash
          cache_session d sess.token_hash (record {
            session_id = stored.id;
            user_id = cached.user_id;
            user_email = cached.user_email;
            device_id = sess.device_id;
            expires_at = stored.expires_at;
          })
          let meta = (bytes "session_id", stored.id) ∷ []
          log_audit d (some cached.user_id) token_refresh ip ua meta
          fire_hook d cached.user_id cached.user_email token_refresh ip ua meta
          pure tokens

  -- RefreshToken behind the test of expiry: new tokens in place of the old one.
  unfoldable pub rotate : Context → RefreshRequest → Text → CachedSession → Action (State d) Tokens
  rotate ctx req token_hash cached = do
    t₁ ← read
    case (d.token_mgr.generate_access_token t₁ cached.user_id cached.user_email user_roles)
        (λ _. internal_error d)
        λ access. do
          t₂ ← read
          case (Token.generate d.sha256 t₂) (λ _. internal_error d)
              λ refresh. do
                let (ip, ua) = extract_client_info ctx
                t₃ ← read
                exchange token_hash cached
                    (new_session d cached.user_id refresh.1
                      (or_default req.device_id cached.device_id) ua ip (t₃.now + d.refresh_ttl))
                    (record { access_token = access; refresh_token = refresh.0 }) ip ua

  -- RefreshToken
  unfoldable pub refresh_token : Context → RefreshRequest → Action (State d) Tokens
  refresh_token ctx req = do
    let token_hash = hash d req.refresh_token
    cached ← find_session token_hash
    t ← read
    (if ltb cached.expires_at t.now
        then drop_expired token_hash
        else rotate ctx req token_hash cached)
