-- ===== src/Auth/Logout.antt =====
-- internal/service/auth/auth.go: Logout, LogoutAll and RevokeSession.
use auth_service.Prelude.{
  ℕ, ◌%◌, ◌^◌, Text, Option, none, some, [], ◌∷◌, bytes, length, if◌then◌else◌,
}
use auth_service.Context.{Context, extract_client_info}
use auth_service.Encoding.{decimal}
use auth_service.Ports.{
  Error, Result, ok, err, is_session_not_found, CachedSession, logout, logout_all, session_revoke,
}
use auth_service.Auth.Monad.{
  Deps, State, not_found, Action, pure, fail, case, on_sessions, ◌>>=◌, ◌>>◌,
}
use auth_service.Auth.Helpers.{
  hash, internal_error, log_audit, fire_hook, get_cached_session, delete_session_from_cache,
  delete_each, extract_user_id,
}

-- The user of a cached session, as the audit log wants it: absent on a miss.
abbrev cached_user : Result Error CachedSession → Option Text
cached_user (ok c) = some c.user_id
cached_user (err e) = none

-- The user's ID for the hook, or "".
abbrev cached_id : Result Error CachedSession → Text
cached_id (ok c) = c.user_id
cached_id (err e) = []

-- The user's address for the hook, or "".
abbrev cached_email : Result Error CachedSession → Text
cached_email (ok c) = c.user_email
cached_email (err e) = []

module _ (d : Deps) where
  -- Logout
  unfoldable pub log_out : Context → Text → Action (State d) (Unit {0})
  log_out ctx refresh_token = do
    let token_hash = hash d refresh_token
    c ← get_cached_session d token_hash
    r ← on_sessions (d.session_store.delete_by_token_hash token_hash)
    case r (λ _. internal_error d)
        λ _. do
          delete_session_from_cache d token_hash
          let (ip, ua) = extract_client_info ctx
          log_audit d (cached_user c) logout ip ua []
          fire_hook d (cached_id c) (cached_email c) logout ip ua []

  -- LogoutAll; the reply is the number of sessions, the bits of an int32
  unfoldable pub log_out_all : Context → Action (State d) ℕ
  log_out_all ctx = do
    user_id ← extract_user_id d ctx
    r ← on_sessions (d.session_store.delete_all_by_user_id user_id)
    case r (λ _. internal_error d)
        λ hashes. do
          delete_each d hashes
          let (ip, ua) = extract_client_info ctx
          let meta = (bytes "sessions_revoked", decimal (length hashes)) ∷ []
          log_audit d (some user_id) logout_all ip ua meta
          fire_hook d user_id [] logout_all ip ua meta
          pure (length hashes % 2 ^ 32)

  -- RevokeSession
  unfoldable pub revoke_session : Context → Text → Action (State d) (Unit {0})
  revoke_session ctx session_id = do
    user_id ← extract_user_id d ctx
    r ← on_sessions (d.session_store.delete_by_id session_id user_id)
    case r
        (λ e.
          if is_session_not_found e then fail not_found "session not found" else internal_error d)
        λ token_hash. do
          delete_session_from_cache d token_hash
          let (ip, ua) = extract_client_info ctx
          let meta = (bytes "session_id", session_id) ∷ []
          log_audit d (some user_id) session_revoke ip ua meta
          fire_hook d user_id [] session_revoke ip ua meta
