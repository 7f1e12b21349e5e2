-- ===== src/Auth/Service.antt =====
-- internal/service/auth/auth.go: the handlers as one service, and runs of requests.
use auth_service.Prelude.{Text, List, [], ◌∷◌, Bool, true, false}
use auth_service.Context.{Context}
use auth_service.Auth.Monad.{Deps, State}
use auth_service.Auth.Account.{
  RegisterRequest, ChangePasswordRequest, register_user, validate_token, change_password,
}
use auth_service.Auth.Login.{LoginRequest, login}
use auth_service.Auth.Refresh.{RefreshRequest, refresh_token}
use auth_service.Auth.Logout.{log_out, log_out_all, revoke_session}
use auth_service.Auth.Listing.{list_sessions}
use auth_service.Auth.Reset.{
  VerifyRequest, ResetRequest, request_password_reset, verify_reset_code, reset_password,
}

-- The calls of api.AuthServiceServer, with the context that each one arrives in.
pub data Request : Type 0 where
  registers : Context → RegisterRequest → Request
  logs_in : Context → LoginRequest → Request
  validates : Text → Request
  refreshes : Context → RefreshRequest → Request
  logs_out : Context → Text → Request
  logs_out_all : Context → Request
  lists : Context → Request
  revokes : Context → Text → Request
  changes : Context → ChangePasswordRequest → Request
  requests_reset : Context → Text → Request
  verifies : VerifyRequest → Request
  resets : Context → ResetRequest → Request

-- Whether a call is Login or RefreshToken, which store a session.
abbrev pub opens_session : Request → Bool
opens_session (logs_in ctx req) = true
opens_session (refreshes ctx req) = true
opens_session _ = false

module _ (d : Deps) where
  -- The state after a call.
  unfoldable pub serve : Request → State d → State d
  serve (registers ctx req) s = (register_user d ctx req s).1
  serve (logs_in ctx req) s = (login d ctx req s).1
  serve (validates token) s = (validate_token d token s).1
  serve (refreshes ctx req) s = (refresh_token d ctx req s).1
  serve (logs_out ctx token) s = (log_out d ctx token s).1
  serve (logs_out_all ctx) s = (log_out_all d ctx s).1
  serve (lists ctx) s = (list_sessions d ctx s).1
  serve (revokes ctx id) s = (revoke_session d ctx id s).1
  serve (changes ctx req) s = (change_password d ctx req s).1
  serve (requests_reset ctx email) s = (request_password_reset d ctx email s).1
  serve (verifies req) s = (verify_reset_code d req s).1
  serve (resets ctx req) s = (reset_password d ctx req s).1

  unfoldable pub run : List Request → State d → State d
  unfolding serve
  run [] s = s
  run (r ∷ rs) s = run rs (serve r s)
