-- ===== src/Postgres/Audit.antt =====
-- internal/adapters/storage/postgres/audit.go
use auth_service.Prelude.{Text, Option, none, some, List, [], ◌∷◌, bytes, Bool, true, if◌then◌else◌}
use auth_service.Models.{User}
use auth_service.Postgres.Sessions.{is_user_id}
use auth_service.Ports.{
  Error, other, Result, ok, err, AuditEvent, EventType, register, login_success, login_failure,
  login_blocked, logout, logout_all, token_refresh, session_revoke, password_change,
  password_reset_request, password_reset,
}
use auth_service.Postgres.{AuditRow, DbError, pg_error, Statement, Pool, with_uuid}

-- string(e.EventType), by the constants of internal/domain/ports/audit.go
abbrev pub event_name : EventType → Text
event_name register = bytes "user.register"
event_name login_success = bytes "user.login.success"
event_name login_failure = bytes "user.login.failure"
event_name login_blocked = bytes "user.login.blocked"
event_name logout = bytes "user.logout"
event_name logout_all = bytes "user.logout_all"
event_name token_refresh = bytes "token.refresh"
event_name session_revoke = bytes "session.revoke"
event_name password_change = bytes "user.password_change"
event_name password_reset_request = bytes "user.password_reset_request"
event_name password_reset = bytes "user.password_reset"

-- user_id REFERENCES users (id), or NULL
abbrev refers : Option Text → List User → Bool
refers none us = true
refers (some i) us = is_user_id i us

-- INSERT INTO audit_events (…) VALUES (…)
unfoldable pub insert_event : AuditRow → Statement (Unit {0})
unfolding is_user_id
insert_event row ts =
    if refers row.user_id ts.users
    then (ok tt, record ts { audit_events = row ∷ ts.audit_events })
    else (err (pg_error (bytes "23503")), ts)

-- The user ID of a row has to be a UUID, or NULL.
abbrev pub id_is_uuid : (Text → Bool) → Option Text → Bool
id_is_uuid is_uuid none = true
id_is_uuid is_uuid (some u) = is_uuid u

abbrev logged : Result DbError (Unit {0}) → Result Error (Unit {0})
logged (ok tt) = ok tt
logged (err e) = err (other (bytes "audit log"))

module _ {K : Type 0} (p : Pool K) (marshal : List (Text × Text) → Option Text) where
  -- The INSERT of Log, with its metadata
  unfoldable pub log_row : AuditEvent → Option Text → K → Result Error (Unit {0}) × K
  log_row e meta k =
      let row : AuditRow = record {
        user_id = e.user_id;
        event_type = event_name e.event_type;
        ip_address = e.ip_address;
        user_agent = e.user_agent;
        metadata = meta;
      } in
      let r = p.query (with_uuid (id_is_uuid p.is_uuid e.user_id) (insert_event row)) k in
      (logged r.0, r.1)

  abbrev marshalled : AuditEvent → Option Text → K → Result Error (Unit {0}) × K
  marshalled e none k = (err (other (bytes "audit marshal metadata")), k)
  marshalled e (some m) k = log_row e (some m) k

  -- (*AuditRepository).Log: no metadata is NULL
  unfoldable pub log : AuditEvent → K → Result Error (Unit {0}) × K
  unfolding log_row
  log e k = elim e.metadata [ [] ↦ log_row e none k | m ∷ ms ↦ marshalled e (marshal (m ∷ ms)) k ]
