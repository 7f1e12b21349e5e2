-- ===== src/Auth/Listing.antt =====
-- internal/service/auth/auth.go: ListSessions.
use auth_service.Prelude.{ℕ, ◌/◌, Text, List, map}
use auth_service.Models.{Session}
use auth_service.Context.{Context}
use auth_service.Auth.Monad.{Deps, State, Action, pure, case, on_sessions, ◌>>=◌}
use auth_service.Auth.Helpers.{internal_error, extract_user_id}

-- api.SessionInfo; times are in seconds
pub record SessionInfo : Type 0 where
  pub session_id : Text
  pub device_id : Text
  pub user_agent : Text
  pub ip_address : Text
  pub created_at : ℕ
  pub last_used_at : ℕ

abbrev pub info_of : Session → SessionInfo
info_of x = record {
  session_id = x.id;
  device_id = x.device_id;
  user_agent = x.user_agent;
  ip_address = x.ip_address;
  created_at = x.created_at / 1000000000;
  last_used_at = x.last_used_at / 1000000000;
}

module _ (d : Deps) where
  -- ListSessions
  unfoldable pub list_sessions : Context → Action (State d) (List SessionInfo)
  list_sessions ctx = do
    user_id ← extract_user_id d ctx
    r ← on_sessions (d.session_store.list_by_user_id user_id)
    case r (λ _. internal_error d) (λ sessions. pure (map info_of sessions))
