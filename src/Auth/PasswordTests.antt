-- ===== src/Auth/PasswordTests.antt =====
-- The theorems on Login, passwords and codes, applied to the fixture.
use auth_service.Prelude.{
  ℕ, ◌≡◌, refl, Text, none, some, [], bytes, if◌then◌else◌, true, false, ltb,
}
use auth_service.Prelude.Lists.{◌==◌}
use auth_service.Prelude.Maps.{lookup, insert, delete as delete_key}
use auth_service.Prelude.Heaps.{load, store}
use auth_service.Models.{User}
use auth_service.Ports.{ok, ResetTokenRecord, OtpRecord}
use auth_service.Ports.Laws.{is_user, is_other}
use auth_service.Context.{get, forwarded, extract_client_info}
use auth_service.Strings.{split, cut_any, cut_all, cut_prefix, split_host_port, rightmost}
use auth_service.Encoding.{
  hex_digit, hex, base64_digit, base64_value, encode, values, regroup, raw_decode,
}
use auth_service.Token
use auth_service.Password
use auth_service.Validate.{
  nullable, derivative, matches, check_email, decode_rune, runes, scan, check_password,
}
use auth_service.Bruteforce.{is_locked, get_local_entry, is_locked_entry, reset}
use auth_service.Memory.Users.{create as create_user, get_by_email, get_by_id, update_password_hash}
use auth_service.Memory.Sessions.{
  find_by_hash, find_by_id, put, drop, create, get_by_token_hash, delete_by_id,
  delete_by_token_hash, rotate_token, delete_where, delete_all_by_user_id,
  delete_all_by_user_id_except,
}
use auth_service.Memory.Sessions.Owner.{owner}
use auth_service.Memory.Sessions.Implements.{session_laws}
use auth_service.Memory.Cache.{set, get as get_entry, delete}
use auth_service.Memory.Resets.{
  get_otp, incr_otp_attempts, delete_otp, save_reset_token, get_reset_token, delete_reset_token,
}
use auth_service.Auth.Monad.{
  read, on_users, on_sessions, on_cache, on_resets, on_guard, spawn, ◌>>=◌,
}
use auth_service.Auth.Helpers.{
  hash, log_audit, fire_hook, cache_session, get_cached_session, delete_session_from_cache,
  delete_each, token_user, header_user, metadata_user, extract_user_id,
}
use auth_service.Auth.Account.{ChangePasswordRequest, replace_password, change_password}
use auth_service.Auth.Login.{
  LoginRequest, check_locked, clear_failures, store_session, open_session, check_password_of, login,
}
use auth_service.Auth.Reset.{
  VerifyRequest, ResetRequest, issue_reset_token, judge_attempt, verify_reset_code,
  max_otp_attempts, set_password, use_token, redeem, reset_password,
}
use auth_service.Auth.Admission.{login_admits}
use auth_service.Auth.Passwords.{
  AllDeleted, OthersDeleted, change_password_ends, reset_password_ends,
}
use auth_service.Auth.Codes.{verify_reset_code_checks}
use auth_service.Auth.Fixture.{
  deps, one_session, one_session-IsValid, token, email, state, context, new_tokens,
}

abbrev login_request : LoginRequest
login_request = record { email = email; password = bytes "secret12"; device_id = [] }

login_runs : (login deps context login_request state).0 ≡ ok (new_tokens (bytes "AgID"))
unfolding login create_user get_by_email check_locked clear_failures store_session open_session
    check_password_of is_locked get_local_entry is_locked_entry reset Token.generate check_email
    matches derivative nullable Password.verify Password.verify_fields Password.scan_params
    Password.scan_field Password.scan_digits Password.skip_spaces cut_any cut_all split cut_prefix
    base64_value values regroup raw_decode encode base64_digit Password.hash ◌>>=◌ read on_users
    on_sessions on_cache on_resets on_guard spawn hash Token.hash hex hex_digit log_audit fire_hook
    cache_session get_cached_session delete_session_from_cache delete_each set get_entry delete
    find_by_hash find_by_id put drop create get_by_token_hash delete_by_id delete_by_token_hash
    rotate_token delete_where delete_all_by_user_id delete_all_by_user_id_except lookup insert
    delete_key load store ◌==◌ token_user header_user metadata_user extract_user_id get
    extract_client_info forwarded rightmost split_host_port
login_runs = refl

login_admits_example :
    (u : User) × ((check_locked deps email state).0 ≡ ok false)
    × ((get_by_email email state.users).0 ≡ ok u)
    × (Password.verify deps.id_key (bytes "secret12") u.password_hash ≡ ok true)
    × (owner (hash deps (bytes "AgID")) (login deps context login_request state).1.sessions
        ≡ some u.id)
login_admits_example =
    login_admits deps session_laws context login_request state (new_tokens (bytes "AgID"))
      one_session-IsValid login_runs

abbrev change : ChangePasswordRequest
change = record {
  current_password = bytes "secret12";
  new_password = bytes "secret13";
  refresh_token = token;
}

-- The in-memory store deletes without an error.
others_deleted : OthersDeleted deps
unfolding delete_all_by_user_id_except
others_deleted u keep x = (_, refl)

all_deleted : AllDeleted deps
unfolding delete_all_by_user_id
all_deleted u x = (_, refl)

change_password_runs : (change_password deps context change state).0 ≡ ok tt
unfolding change_password replace_password create_user get_by_id update_password_hash check_password
    scan runes decode_rune Password.verify Password.verify_fields Password.scan_params
    Password.scan_field Password.scan_digits Password.skip_spaces cut_any cut_all split cut_prefix
    base64_value values regroup raw_decode encode base64_digit Password.hash ◌>>=◌ read on_users
    on_sessions on_cache on_resets on_guard spawn hash Token.hash hex hex_digit log_audit fire_hook
    cache_session get_cached_session delete_session_from_cache delete_each set get_entry delete
    find_by_hash find_by_id put drop create get_by_token_hash delete_by_id delete_by_token_hash
    rotate_token delete_where delete_all_by_user_id delete_all_by_user_id_except lookup insert
    delete_key load store ◌==◌ token_user header_user metadata_user extract_user_id get
    extract_client_info forwarded rightmost split_host_port
change_password_runs = refl

change_password_ends_example :
    (u : Text) × ((extract_user_id deps context state).0 ≡ ok u)
    × ((k : Text)
        → owner k (change_password deps context change state).1.sessions ≡ (
            if is_other u (hash deps token) k (owner k one_session)
            then none
            else owner k one_session))
change_password_ends_example =
    change_password_ends deps session_laws context change state others_deleted one_session-IsValid
      change_password_runs

abbrev reset_request : ResetRequest
reset_request = record { reset_token = token; new_password = bytes "secret13" }

reset_password_runs : (reset_password deps context reset_request state).0 ≡ ok tt
unfolding reset_password redeem use_token set_password create_user get_by_id update_password_hash
    get_reset_token delete_reset_token check_password scan runes decode_rune Password.verify
    Password.verify_fields Password.scan_params Password.scan_field Password.scan_digits
    Password.skip_spaces cut_any cut_all split cut_prefix base64_value values regroup raw_decode
    encode base64_digit Password.hash ◌>>=◌ read on_users on_sessions on_cache on_resets on_guard
    spawn hash Token.hash hex hex_digit log_audit fire_hook cache_session get_cached_session
    delete_session_from_cache delete_each set get_entry delete find_by_hash find_by_id put drop
    create get_by_token_hash delete_by_id delete_by_token_hash rotate_token delete_where
    delete_all_by_user_id delete_all_by_user_id_except lookup insert delete_key load store ◌==◌
    token_user header_user metadata_user extract_user_id get extract_client_info forwarded rightmost
    split_host_port
reset_password_runs = refl

reset_password_ends_example :
    (r : ResetTokenRecord) × ((get_reset_token
        (λ e. e)
        (deps.stamp 0)
        (hash deps token)
        state.resets).0
      ≡ ok r)
    × ((k : Text)
        → owner k (reset_password deps context reset_request state).1.sessions
          ≡ (if is_user r.user_id (owner k one_session) then none else owner k one_session))
reset_password_ends_example =
    reset_password_ends deps session_laws context reset_request state all_deleted
      one_session-IsValid reset_password_runs

abbrev verify_request : VerifyRequest
verify_request = record { email = email; otp = token }

verify_reset_code_runs : (verify_reset_code deps verify_request state).0 ≡ ok (bytes "AgID")
unfolding verify_reset_code judge_attempt issue_reset_token Token.generate get_otp incr_otp_attempts
    delete_otp save_reset_token check_email matches derivative nullable Password.verify
    Password.verify_fields Password.scan_params Password.scan_field Password.scan_digits
    Password.skip_spaces cut_any cut_all split cut_prefix base64_value values regroup raw_decode
    encode base64_digit Password.hash ◌>>=◌ read on_users on_sessions on_cache on_resets on_guard
    spawn hash Token.hash hex hex_digit log_audit fire_hook cache_session get_cached_session
    delete_session_from_cache delete_each set get_entry delete find_by_hash find_by_id put drop
    create get_by_token_hash delete_by_id delete_by_token_hash rotate_token delete_where
    delete_all_by_user_id delete_all_by_user_id_except lookup insert delete_key load store ◌==◌
    token_user header_user metadata_user extract_user_id get extract_client_info forwarded rightmost
    split_host_port
verify_reset_code_runs = refl

verify_reset_code_checks_example :
    (otp : OtpRecord) × (n : ℕ) × ((get_otp (λ e. e) (deps.stamp 0) email state.resets).0 ≡ ok otp)
    × ((incr_otp_attempts
          (λ e. e)
          (deps.stamp 1)
          email
          (get_otp (λ e. e) (deps.stamp 0) email state.resets).1).0
        ≡ ok n)
    × (ltb n max_otp_attempts ≡ true)
    × (hash deps token ≡ otp.otp_hash)
verify_reset_code_checks_example =
    verify_reset_code_checks deps verify_request state (bytes "AgID") verify_reset_code_runs
