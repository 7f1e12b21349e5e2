-- ===== src/Auth/Tests.antt =====
-- The theorems on sessions, applied to the fixture.
use auth_service.Prelude.{◌≡◌, ◌≢◌, refl, Text, none, some, [], ◌∷◌, bytes, if◌then◌else◌}
use auth_service.Prelude.Lists.{◌==◌}
use auth_service.Prelude.Maps.{lookup, insert, delete as delete_key}
use auth_service.Prelude.Heaps.{load, store}
use auth_service.Ports.{ok}
use auth_service.Ports.Laws.{is_user}
use auth_service.Context.{get, forwarded, extract_client_info}
use auth_service.Strings.{cut_prefix, split_host_port, rightmost}
use auth_service.Encoding.{hex_digit, hex, base64_digit, encode}
use auth_service.Token
use auth_service.Memory.Sessions.{
  find_by_hash, find_by_id, put, drop, create, get_by_token_hash, delete_by_id,
  delete_by_token_hash, rotate_token, delete_where, delete_all_by_user_id,
  delete_all_by_user_id_except,
}
use auth_service.Memory.Sessions.Owner.{owner}
use auth_service.Memory.Sessions.Implements.{session_laws}
use auth_service.Memory.Cache.{set, get as get_entry, delete}
use auth_service.Auth.Monad.{
  read, on_users, on_sessions, on_cache, on_resets, on_guard, spawn, ◌>>=◌,
}
use auth_service.Auth.Helpers.{
  hash, log_audit, fire_hook, cache_session, get_cached_session, delete_session_from_cache,
  delete_each, token_user, header_user, metadata_user, extract_user_id,
}
use auth_service.Auth.Refresh.{RefreshRequest, find_session, exchange, rotate, refresh_token}
use auth_service.Auth.Logout.{log_out, log_out_all, revoke_session}
use auth_service.Auth.Service.{logs_out, logs_out_all, run}
use auth_service.Auth.Rotation.{NamedBy, refresh_token_rotates}
use auth_service.Auth.Revocation.{revoked_stays_refused}
use auth_service.Auth.Endings.{log_out_ends, log_out_all_ends, revoke_session_ends}
use auth_service.Auth.Within.{Within, run-Within}
use auth_service.Auth.Fixture.{
  deps, one_session, one_session-IsValid, token, token_hash, state, context, refresh, new_tokens,
}

log_out_runs : (log_out deps context token state).0 ≡ ok tt
unfolding log_out ◌>>=◌ read on_users on_sessions on_cache on_resets on_guard spawn hash Token.hash
    hex hex_digit log_audit fire_hook cache_session get_cached_session delete_session_from_cache
    delete_each set get_entry delete find_by_hash find_by_id put drop create get_by_token_hash
    delete_by_id delete_by_token_hash rotate_token delete_where delete_all_by_user_id
    delete_all_by_user_id_except lookup insert delete_key load store ◌==◌ token_user header_user
    metadata_user extract_user_id get cut_prefix extract_client_info forwarded rightmost
    split_host_port
log_out_runs = refl

log_out_ends_example :
    owner token_hash (log_out deps context token state).1.sessions
    ≡ (if hash deps token == token_hash then none else owner token_hash one_session)
log_out_ends_example =
    log_out_ends deps session_laws context token state one_session-IsValid log_out_runs token_hash

log_out_all_runs : (log_out_all deps context state).0 ≡ ok 1
unfolding log_out_all ◌>>=◌ read on_users on_sessions on_cache on_resets on_guard spawn hash
    Token.hash hex hex_digit log_audit fire_hook cache_session get_cached_session
    delete_session_from_cache delete_each set get_entry delete find_by_hash find_by_id put drop
    create get_by_token_hash delete_by_id delete_by_token_hash rotate_token delete_where
    delete_all_by_user_id delete_all_by_user_id_except lookup insert delete_key load store ◌==◌
    token_user header_user metadata_user extract_user_id get cut_prefix extract_client_info
    forwarded rightmost split_host_port
log_out_all_runs = refl

log_out_all_ends_example :
    (u : Text) × ((extract_user_id deps context state).0 ≡ ok u)
    × ((k : Text)
        → owner k (log_out_all deps context state).1.sessions
          ≡ (if is_user u (owner k one_session) then none else owner k one_session))
log_out_all_ends_example =
    log_out_all_ends deps session_laws context state 1 one_session-IsValid log_out_all_runs

revoke_session_runs : (revoke_session deps context (bytes "s") state).0 ≡ ok tt
unfolding revoke_session ◌>>=◌ read on_users on_sessions on_cache on_resets on_guard spawn hash
    Token.hash hex hex_digit log_audit fire_hook cache_session get_cached_session
    delete_session_from_cache delete_each set get_entry delete find_by_hash find_by_id put drop
    create get_by_token_hash delete_by_id delete_by_token_hash rotate_token delete_where
    delete_all_by_user_id delete_all_by_user_id_except lookup insert delete_key load store ◌==◌
    token_user header_user metadata_user extract_user_id get cut_prefix extract_client_info
    forwarded rightmost split_host_port
revoke_session_runs = refl

revoke_session_ends_example :
    (u : Text) × ((extract_user_id deps context state).0 ≡ ok u)
    × ((h : Text) × (owner h one_session ≡ some u)
        × ((k : Text)
            → owner k (revoke_session deps context (bytes "s") state).1.sessions
              ≡ (if h == k then none else owner k one_session)))
revoke_session_ends_example =
    revoke_session_ends deps session_laws context (bytes "s") state one_session-IsValid
      revoke_session_runs

refresh_token_runs : (refresh_token deps context refresh state).0 ≡ ok (new_tokens (bytes "BAID"))
unfolding refresh_token find_session exchange rotate Token.generate encode base64_digit ◌>>=◌ read
    on_users on_sessions on_cache on_resets on_guard spawn hash Token.hash hex hex_digit log_audit
    fire_hook cache_session get_cached_session delete_session_from_cache delete_each set get_entry
    delete find_by_hash find_by_id put drop create get_by_token_hash delete_by_id
    delete_by_token_hash rotate_token delete_where delete_all_by_user_id
    delete_all_by_user_id_except lookup insert delete_key load store ◌==◌ token_user header_user
    metadata_user extract_user_id get cut_prefix extract_client_info forwarded rightmost
    split_host_port
refresh_token_runs = refl

refresh_token_rotates_example :
    (owner (hash deps token) one_session ≢ none)
    × ((u : Text) × NamedBy deps session_laws (hash deps token) state u
        × ((k : Text)
            → owner k (refresh_token deps context refresh state).1.sessions ≡ (
                if hash deps (bytes "BAID") == k
                then some u
                else if hash deps token == k
                then none
                else owner k one_session)))
refresh_token_rotates_example =
    refresh_token_rotates deps session_laws context refresh state (new_tokens (bytes "BAID"))
      one_session-IsValid refresh_token_runs

-- A refresh token that was never given out.
abbrev stale : RefreshRequest
stale = record { refresh_token = bytes "z"; device_id = [] }

stale-owner : owner (hash deps (bytes "z")) one_session ≡ none
unfolding owner ◌>>=◌ read on_users on_sessions on_cache on_resets on_guard spawn hash Token.hash
    hex hex_digit log_audit fire_hook cache_session get_cached_session delete_session_from_cache
    delete_each set get_entry delete find_by_hash find_by_id put drop create get_by_token_hash
    delete_by_id delete_by_token_hash rotate_token delete_where delete_all_by_user_id
    delete_all_by_user_id_except lookup insert delete_key load store ◌==◌
stale-owner = refl

revoked_stays_refused_example :
    (refresh_token deps context stale (run deps (logs_out context token ∷ []) state)).0
    ≢ ok (new_tokens (bytes "BAID"))
revoked_stays_refused_example =
    revoked_stays_refused deps session_laws (logs_out context token ∷ []) context stale state
      (refl, tt) one_session-IsValid stale-owner (new_tokens (bytes "BAID"))

abbrev Allowed : Text → Text → Type 0
Allowed k u = owner k one_session ≡ some u

run-Within_example :
    Within deps session_laws Allowed
      (run deps (logs_out context token ∷ logs_out_all context ∷ []) state).sessions
run-Within_example =
    run-Within deps session_laws Allowed (logs_out context token ∷ logs_out_all context ∷ []) state
      (refl, (refl, tt)) (one_session-IsValid, λ k u e. e)
