-- ===== src/Auth/Within.antt =====
-- internal/service/auth/auth.go: the handlers that store no session bring none in.
use auth_service.Prelude.{◌≡◌, Text, some, List, [], ◌∷◌, false, arith, ℕ}
use auth_service.Models.{User, Stamp}
use auth_service.Ports.{OtpRecord, ResetTokenRecord}
use auth_service.Ports.Laws.{SessionLaws}
use auth_service.Context.{Context}
use auth_service.Auth.Monad.{Deps, State}
use auth_service.Auth.Rules.{Keeps}
use auth_service.Auth.Quiet.{keeps_rules}
use auth_service.Auth.Account.{
  ChangePasswordRequest, RegisterRequest, register_user, validate_token, replace_password,
  change_password,
}
use auth_service.Auth.Refresh.{find_session}
use auth_service.Auth.Logout.{log_out, log_out_all, revoke_session}
use auth_service.Auth.Listing.{list_sessions}
use auth_service.Auth.Reset.{
  VerifyRequest, ResetRequest, issue_code, request_password_reset, issue_reset_token, judge_attempt,
  verify_reset_code, set_password, use_token, redeem, reset_password,
}
use auth_service.Auth.Service.{
  Request, registers, logs_in, validates, refreshes, logs_out, logs_out_all, lists, revokes,
  changes, requests_reset, verifies, resets, opens_session, serve, run,
}

-- None of the calls is Login or RefreshToken.
abbrev pub NoneOpens : List Request → Type 0
NoneOpens [] = Unit {0}
NoneOpens (r ∷ rs) = (opens_session r ≡ false) × NoneOpens rs

module _ (d : Deps) (laws : SessionLaws d.session_store) (R : Text → Text → Type 0) where
  open laws use {IsValid, owner}

  -- The store is sound, and `R` relates the hash of every session to its user.
  abbrev pub Within : d.Sessions → Type 0
  Within x = IsValid x × ((k u : Text) → owner k x ≡ some u → R k u)

  pub get-Within :
      (t : Stamp) (h : Text) (x : d.Sessions)
      → Within x
      → Within (d.session_store.get_by_token_hash t h x).1
  get-Within t h x (v, w) =
      (laws.get_valid t h x v, λ k u e. w k u (ground (arith, laws.get_owner t h x k v)))

  pub delete_id-Within :
      (i u : Text) (x : d.Sessions) → Within x → Within (d.session_store.delete_by_id i u x).1
  delete_id-Within i u x (v, w) =
      (laws.delete_id_valid i u x v, λ k o e. w k o (laws.delete_id_only i u x k o v e))

  pub delete_hash-Within :
      (h : Text) (x : d.Sessions) → Within x → Within (d.session_store.delete_by_token_hash h x).1
  delete_hash-Within h x (v, w) =
      (laws.delete_hash_valid h x v, λ k o e. w k o (laws.delete_hash_only h x k o v e))

  pub delete_all-Within :
      (u : Text) (x : d.Sessions) → Within x → Within (d.session_store.delete_all_by_user_id u x).1
  delete_all-Within u x (v, w) =
      (laws.delete_all_valid u x v, λ k o e. w k o (laws.delete_all_only u x k o v e))

  pub delete_others-Within :
      (u keep : Text) (x : d.Sessions)
      → Within x
      → Within (d.session_store.delete_all_by_user_id_except u keep x).1
  delete_others-Within u keep x (v, w) = (
    laws.delete_others_valid u keep x v,
    λ k o e. w k o (laws.delete_others_only u keep x k o v e),
  )

  pub list-Within :
      (u : Text) (x : d.Sessions) → Within x → Within (d.session_store.list_by_user_id u x).1
  list-Within u x (v, w) =
      (laws.list_valid u x v, λ k o e. w k o (ground (arith, laws.list_owner u x k v)))

  ruleset within_rules = (
    keeps_rules, get-Within, delete_id-Within, delete_hash-Within, delete_all-Within,
    delete_others-Within, list-Within,
  )

  pub find_session-Within : (h : Text) → Keeps d Within (find_session d h)
  unfolding find_session
  find_session-Within h = search within_rules depth 14

  log_out-Within : (ctx : Context) (token : Text) → Keeps d Within (log_out d ctx token)
  unfolding log_out
  log_out-Within ctx token = search within_rules depth 16

  log_out_all-Within : (ctx : Context) → Keeps d Within (log_out_all d ctx)
  unfolding log_out_all
  log_out_all-Within ctx = search within_rules depth 16

  revoke_session-Within : (ctx : Context) (id : Text) → Keeps d Within (revoke_session d ctx id)
  unfolding revoke_session
  revoke_session-Within ctx id = search within_rules depth 16

  list_sessions-Within : (ctx : Context) → Keeps d Within (list_sessions d ctx)
  unfolding list_sessions
  list_sessions-Within ctx = search within_rules depth 16

  register_user-Within :
      (ctx : Context) (req : RegisterRequest) → Keeps d Within (register_user d ctx req)
  unfolding register_user
  register_user-Within ctx req = search within_rules depth 18

  validate_token-Within : (token : Text) → Keeps d Within (validate_token d token)
  unfolding validate_token
  validate_token-Within token = search within_rules depth 16

  replace_password-Within :
      (ctx : Context) (req : ChangePasswordRequest) (user : User) (id h : Text)
      → Keeps d Within (replace_password d ctx req user id h)
  unfolding replace_password
  replace_password-Within ctx req user id h = search within_rules depth 18

  change_password-Within :
      (ctx : Context) (req : ChangePasswordRequest) → Keeps d Within (change_password d ctx req)
  unfolding change_password
  change_password-Within ctx req = search (within_rules, replace_password-Within) depth 18

  issue_code-Within :
      (ctx : Context) (email : Text) (user : User) → Keeps d Within (issue_code d ctx email user)
  unfolding issue_code
  issue_code-Within ctx email user = search within_rules depth 16

  request_password_reset-Within :
      (ctx : Context) (email : Text) → Keeps d Within (request_password_reset d ctx email)
  unfolding request_password_reset
  request_password_reset-Within ctx email = search (within_rules, issue_code-Within) depth 16

  issue_reset_token-Within :
      (req : VerifyRequest) (otp : OtpRecord) → Keeps d Within (issue_reset_token d req otp)
  unfolding issue_reset_token
  issue_reset_token-Within req otp = search within_rules depth 16

  judge_attempt-Within :
      (req : VerifyRequest) (otp : OtpRecord) (n : ℕ) → Keeps d Within (judge_attempt d req otp n)
  unfolding judge_attempt
  judge_attempt-Within req otp n = search (within_rules, issue_reset_token-Within) depth 16

  verify_reset_code-Within : (req : VerifyRequest) → Keeps d Within (verify_reset_code d req)
  unfolding verify_reset_code
  verify_reset_code-Within req = search (within_rules, judge_attempt-Within) depth 16

  set_password-Within :
      (ctx : Context) (token : ResetTokenRecord) (h : Text)
      → Keeps d Within (set_password d ctx token h)
  unfolding set_password
  set_password-Within ctx token h = search within_rules depth 16

  use_token-Within :
      (ctx : Context) (req : ResetRequest) (token : ResetTokenRecord)
      → Keeps d Within (use_token d ctx req token)
  unfolding use_token
  use_token-Within ctx req token = search (within_rules, set_password-Within) depth 16

  redeem-Within : (ctx : Context) (req : ResetRequest) → Keeps d Within (redeem d ctx req)
  unfolding redeem
  redeem-Within ctx req = search (within_rules, use_token-Within) depth 16

  reset_password-Within :
      (ctx : Context) (req : ResetRequest) → Keeps d Within (reset_password d ctx req)
  unfolding reset_password
  reset_password-Within ctx req = search (within_rules, redeem-Within) depth 16

  -- No call but Login and RefreshToken brings in a session that `R` does not allow.
  pub serve-Within :
      (r : Request) (s : State d)
      → opens_session r ≡ false
      → Within s.sessions
      → Within (serve d r s).sessions
  unfolding serve
  serve-Within (registers ctx req) s e w = (register_user-Within ctx req).at s w
  serve-Within (logs_in ctx req) s e w = cc
  serve-Within (validates token) s e w = (validate_token-Within token).at s w
  serve-Within (refreshes ctx req) s e w = cc
  serve-Within (logs_out ctx token) s e w = (log_out-Within ctx token).at s w
  serve-Within (logs_out_all ctx) s e w = (log_out_all-Within ctx).at s w
  serve-Within (lists ctx) s e w = (list_sessions-Within ctx).at s w
  serve-Within (revokes ctx id) s e w = (revoke_session-Within ctx id).at s w
  serve-Within (changes ctx req) s e w = (change_password-Within ctx req).at s w
  serve-Within (requests_reset ctx email) s e w = (request_password_reset-Within ctx email).at s w
  serve-Within (verifies req) s e w = (verify_reset_code-Within req).at s w
  serve-Within (resets ctx req) s e w = (reset_password-Within ctx req).at s w

  -- Over a session store that keeps its laws, from a sound state: over any calls but Login and
  -- RefreshToken the store stays sound, and `R` goes on relating the hash of every session to its
  -- user.
  pub run-Within :
      (rs : List Request) (s : State d)
      → NoneOpens rs
      → Within s.sessions
      → Within (run d rs s).sessions
  unfolding run
  run-Within [] s n w = w
  run-Within (r ∷ rs) s n w = run-Within rs (serve d r s) n.1 (serve-Within r s n.0 w)
