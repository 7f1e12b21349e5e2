-- ===== src/Auth/Helpers.antt =====
-- internal/service/auth/auth.go: the helpers of the handlers.
use auth_service.Prelude.{
  ◌-◌, Text, String, Option, none, some, List, [], ◌∷◌, bytes, leb, if◌then◌else◌,
}
use auth_service.Prelude.Maps.{Map}
use auth_service.Ports.{Error, Result, ok, err, CachedSession, EventType}
use auth_service.Strings.{cut_prefix}
use auth_service.Context.{Context, get, first}
use auth_service.Token
use auth_service.Auth.Monad.{
  Deps, State, unauthenticated, internal, invalid_argument, Action, pure, fail, case, read,
  on_cache, spawn, when, audit, hook, ◌>>=◌, ◌>>◌,
}

module _ (d : Deps) where
  -- token.Hash
  unfoldable pub hash : Text → Text
  hash = Token.hash d.sha256

  -- An error of internal/lib/validate becomes InvalidArgument with its text.
  abbrev pub valid : Result String (Unit {0}) → Action (State d) (Unit {0})
  valid (ok _) = pure tt
  valid (err m) = fail invalid_argument m

  abbrev pub internal_error : {A : Type 0} → Action (State d) A
  internal_error = fail internal "internal error"

  -- logAudit; the event is written by a goroutine
  unfoldable pub log_audit :
      Option Text → EventType → Text → Text → List (Text × Text) → Action (State d) (Unit {0})
  log_audit user_id event ip ua meta = when d.has_audit (
      spawn (
        audit (record {
          user_id = user_id;
          event_type = event;
          ip_address = ip;
          user_agent = ua;
          metadata = meta;
        })))

  -- fireHook; whether a hook is set is not asked
  unfoldable pub fire_hook :
      Text → Text → EventType → Text → Text → List (Text × Text) → Action (State d) (Unit {0})
  fire_hook user_id email event ip ua meta = spawn (
      hook (record {
        event_type = event;
        user_id = user_id;
        user_email = email;
        ip_address = ip;
        user_agent = ua;
        metadata = meta;
      }))

  -- cacheSession; an error is logged alone
  unfoldable pub cache_session : Text → CachedSession → Action (State d) (Unit {0})
  cache_session token_hash sess = do
    t ← read
    let ttl = sess.expires_at - t.now
    (if leb ttl 0
        then pure tt
        else (on_cache (d.session_cache.set t token_hash sess ttl) >> pure tt))

  -- getCachedSession
  unfoldable pub get_cached_session : Text → Action (State d) (Result Error CachedSession)
  get_cached_session token_hash = do t ← read; on_cache (d.session_cache.get t token_hash)

  -- deleteSessionFromCache; an error is logged alone
  unfoldable pub delete_session_from_cache : Text → Action (State d) (Unit {0})
  delete_session_from_cache token_hash = on_cache (d.session_cache.delete token_hash) >> pure tt

  -- for _, h := range hashes { s.deleteSessionFromCache(ctx, h) }
  unfoldable pub delete_each : List Text → Action (State d) (Unit {0})
  delete_each [] = pure tt
  delete_each (h ∷ hs) = delete_session_from_cache h >> delete_each hs

  -- The user of a Bearer token, absent where the header has another form.
  unfoldable pub token_user : Option Text → Action (State d) Text
  token_user none = fail unauthenticated "invalid authorization header format"
  token_user (some token) = do
    t ← read
    case (d.token_mgr.validate_access_token t token)
        (λ _. fail unauthenticated "invalid access token") (λ c. pure c.user_id)

  -- The user of the first Authorization header.
  unfoldable pub header_user : Option Text → Action (State d) Text
  header_user none = fail unauthenticated "missing authorization header"
  header_user (some header) = token_user (cut_prefix header (bytes "Bearer "))

  -- The user that the metadata names.
  unfoldable pub metadata_user : Option (Map (List Text)) → Action (State d) Text
  metadata_user none = fail unauthenticated "missing metadata"
  metadata_user (some md) = header_user (first (get (bytes "authorization") md))

  -- extractUserIDFromCtx
  unfoldable pub extract_user_id : Context → Action (State d) Text
  extract_user_id ctx = metadata_user ctx.metadata
