-- ===== src/Auth/OutcomeTests.antt =====
-- What Login answers, on the fixture.
use auth_service.Prelude.{inl, ◌≡◌, refl, Text, [], bytes, true, false}
use auth_service.Prelude.Lists.{◌==◌}
use auth_service.Prelude.Maps.{lookup, insert}
use auth_service.Prelude.Heaps.{load, store}
use auth_service.Models.{User}
use auth_service.Ports.{Error, ok, err, is_user_not_found}
use auth_service.Strings.{split, cut_any, cut_all, cut_prefix}
use auth_service.Encoding.{base64_value, values, regroup, raw_decode}
use auth_service.Password
use auth_service.Validate.{nullable, derivative, matches, check_email}
use auth_service.Bruteforce.{is_locked, get_local_entry, is_locked_entry}
use auth_service.Memory.Users.{create as create_user, get_by_email}
use auth_service.Memory.Sessions.{create}
use auth_service.Auth.Monad.{read, on_guard, ◌>>=◌}
use auth_service.Auth.Login.{LoginRequest, Tokens, check_locked, login}
use auth_service.Auth.Outcomes.{Works, Refused, bad_credentials, login_conceals, login_succeeds}
use auth_service.Memory.Resets.{save_otp}
use auth_service.Auth.Reset.{request_password_reset}
use auth_service.Auth.Requests.{Saves, request_password_reset_conceals}
use auth_service.Auth.Fixture.{deps, email, state, context, password_hash}

abbrev request : Text → LoginRequest
request password = record { email = email; password = password; device_id = [] }

-- The user of the fixture.
abbrev user : User
user = record {
  id = bytes "u";
  email = email;
  password_hash = password_hash;
  created_at = 50;
  updated_at = 50;
}

works : Works deps
unfolding create
works = record {
  creates = λ t x k. (_, refl);
  signs = λ t u m rs. (u, refl);
  draws = λ n. (_, refl);
}

address_accepted : check_email email ≡ ok tt
unfolding check_email matches derivative nullable
address_accepted = refl

unlocked : (check_locked deps email state).0 ≡ ok false
unfolding check_locked is_locked get_local_entry is_locked_entry ◌>>=◌ read on_guard lookup
unlocked = refl

found : (get_by_email email state.users).0 ≡ ok user
unfolding get_by_email create_user lookup insert load store ◌==◌
found = refl

right : Password.verify deps.id_key (bytes "secret12") password_hash ≡ ok true
unfolding Password.verify Password.verify_fields Password.scan_params Password.scan_field
    Password.scan_digits Password.skip_spaces cut_any cut_all split cut_prefix base64_value values
    regroup raw_decode ◌==◌
right = refl

wrong : Password.verify deps.id_key (bytes "secret13") password_hash ≡ ok false
unfolding Password.verify Password.verify_fields Password.scan_params Password.scan_field
    Password.scan_digits Password.skip_spaces cut_any cut_all split cut_prefix base64_value values
    regroup raw_decode ◌==◌
wrong = refl

login_succeeds_example :
    (a : Tokens) × ((login deps context (request (bytes "secret12")) state).0 ≡ ok a)
login_succeeds_example =
    login_succeeds deps context (request (bytes "secret12")) state user works address_accepted
      unlocked found right

login_conceals_example :
    ((e : Error)
      → (get_by_email email state.users).0 ≡ err e
      → is_user_not_found e ≡ true
      → (login deps context (request (bytes "secret13")) state).0 ≡ err (bad_credentials deps))
    × ((u : User)
        → (get_by_email email state.users).0 ≡ ok u
        → Password.verify deps.id_key (bytes "secret13") u.password_hash ≡ ok false
        → Refused deps (login deps context (request (bytes "secret13")) state).0)
login_conceals_example =
    login_conceals deps context (request (bytes "secret13")) state address_accepted unlocked

-- The second answer is given for this request.
refused : Refused deps (login deps context (request (bytes "secret13")) state).0
refused =
    (login_conceals deps context (request (bytes "secret13")) state address_accepted unlocked).1
      user found wrong

saves : Saves deps
unfolding save_otp
saves = record { draws = λ n. (_, refl); saves = λ t u e h ttl x. refl }

request_password_reset_conceals_example :
    (request_password_reset deps context email state).0 ≡ ok tt
request_password_reset_conceals_example =
    request_password_reset_conceals deps context email state saves address_accepted
      (inl (user, found))
