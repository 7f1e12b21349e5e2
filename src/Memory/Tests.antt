-- ===== src/Memory/Tests.antt =====
-- The theorems of the in-memory backends, applied to small stores.
use auth_service.Prelude.{
  ℕ, ◌+◌, ◌≡◌, ◌≢◌, refl, Text, none, some, [], ◌∷◌, bytes, if◌then◌else◌, ltb,
}
use auth_service.Prelude.Lists.{◌==◌}
use auth_service.Prelude.Maps.{lookup, insert, delete}
use auth_service.Prelude.Heaps.{load}
use auth_service.Models.{User, Session, Stamp}
use auth_service.Ports.{ok, CachedSession, OtpRecord}
use auth_service.Ports.Laws.{is_user, listed}
use auth_service.Memory.Users.{
  Users, new_user_store, create as create_user, get_by_email, update_password_hash,
}
use auth_service.Memory.Users.Coherence.{
  IsValid as UsersValid, new_user_store-IsValid, create-IsValid as create_user-IsValid,
  update_password_hash-get_by_email,
}
use auth_service.Memory.Sessions.{
  Sessions, new_session_store, find_by_hash, find_by_id, put, drop, filled, create, rotate_token,
  delete_by_id, delete_where, delete_all_by_user_id,
}
use auth_service.Memory.Sessions.Invariant.{IsValid, new_session_store-IsValid}
use auth_service.Memory.Sessions.Owner.{owner, holder}
use auth_service.Memory.Sessions.Single.{create-IsValid, rotate-IsValid}
use auth_service.Memory.Sessions.Many.{listed-delete_all}
use auth_service.Memory.Sessions.Implements.{rotate_ok}
use auth_service.Memory.Sessions.TakenOut.{delete_by_id_takes_out, delete_all_takes_out}
use auth_service.Memory.Cache.{new, set, get}
use auth_service.Memory.Cache.Expiry.{miss, get-set}
use auth_service.Memory.Resets.{Resets, new_reset_store, get_otp, incr_otp_attempts}
use auth_service.Memory.Resets.Attempts.{attempt, attempt-counts}

abbrev at : ℕ → Stamp
at n = record { now = n; later = n; uuid = n ∷ []; entropy = λ k. none }

abbrev session_of : Text → Text → Session
session_of id token_hash = record {
  id = id;
  user_id = bytes "u";
  user_email = [];
  token_hash = token_hash;
  device_id = [];
  user_agent = [];
  ip_address = [];
  expires_at = 500;
  last_used_at = 0;
  created_at = 0;
}

abbrev store_of : Sessions
store_of = (create (at 1) (session_of (bytes "s") (bytes "h")) new_session_store).1

store_of-IsValid : IsValid store_of
unfolding lookup
store_of-IsValid =
    create-IsValid (at 1) (session_of (bytes "s") (bytes "h")) new_session_store
      new_session_store-IsValid (refl, refl)

-- The session that takes the place of the one in the store, as it is stored.
abbrev next : Session
next = session_of [] (bytes "i")

rotate_token_runs : (rotate_token (at 2) (bytes "h") next store_of).0 ≡ ok (filled (at 2) next)
unfolding rotate_token find_by_hash create put drop lookup insert delete load ◌==◌
rotate_token_runs = refl

rotate_ok_example :
    (owner (bytes "h") store_of ≢ none)
    × (owner (bytes "i") (rotate_token (at 2) (bytes "h") next store_of).1 ≡ (
        if bytes "i" == bytes "i"
        then some (bytes "u")
        else if bytes "h" == bytes "i"
        then none
        else owner (bytes "i") store_of))
rotate_ok_example =
    rotate_ok (at 2) (bytes "h") next (filled (at 2) next) store_of (bytes "i") store_of-IsValid
      rotate_token_runs

next_is_fresh :
    (lookup (filled (at 2) next).id store_of.by_id ≡ none)
    × (lookup next.token_hash store_of.by_hash ≡ none)
unfolding create put lookup insert delete ◌==◌
next_is_fresh = (refl, refl)

rotate-IsValid_example : IsValid (rotate_token (at 2) (bytes "h") next store_of).1
rotate-IsValid_example =
    rotate-IsValid (bytes "h") store_of store_of-IsValid (at 2) next next_is_fresh

delete_by_id_runs : (delete_by_id (bytes "s") (bytes "u") store_of).0 ≡ ok (bytes "h")
unfolding delete_by_id find_by_id create put drop lookup insert delete load ◌==◌
delete_by_id_runs = refl

delete_by_id_takes_out_example :
    ((p : ℕ) × (x : Session) × (find_by_id (bytes "s") store_of ≡ some (p, x))
      × (x.user_id ≡ bytes "u")
      × (x.token_hash ≡ bytes "h"))
    × ((j : Text)
        → holder j (delete_by_id (bytes "s") (bytes "u") store_of).1
          ≡ (if bytes "s" == j then none else holder j store_of))
    × ((k : Text)
        → owner k (delete_by_id (bytes "s") (bytes "u") store_of).1
          ≡ (if bytes "h" == k then none else owner k store_of))
    × IsValid (delete_by_id (bytes "s") (bytes "u") store_of).1
delete_by_id_takes_out_example =
    delete_by_id_takes_out (bytes "s") (bytes "u") (bytes "h") store_of store_of-IsValid
      delete_by_id_runs

delete_all_runs : (delete_all_by_user_id (bytes "u") store_of).0 ≡ ok (bytes "h" ∷ [])
unfolding delete_all_by_user_id delete_where create put drop lookup insert delete load ◌==◌
delete_all_runs = refl

listed-delete_all_example :
    listed (bytes "h") (bytes "h" ∷ []) ≡ is_user (bytes "u") (owner (bytes "h") store_of)
listed-delete_all_example =
    listed-delete_all (bytes "u") store_of store_of-IsValid (bytes "h") (bytes "h" ∷ [])
      delete_all_runs

delete_all_takes_out_example :
    ((j : Text)
      → holder j (delete_all_by_user_id (bytes "u") store_of).1
        ≡ (if is_user (bytes "u") (holder j store_of) then none else holder j store_of))
    × ((k : Text)
        → owner k (delete_all_by_user_id (bytes "u") store_of).1
          ≡ (if is_user (bytes "u") (owner k store_of) then none else owner k store_of))
    × IsValid (delete_all_by_user_id (bytes "u") store_of).1
delete_all_takes_out_example = delete_all_takes_out (bytes "u") store_of store_of-IsValid

abbrev users : Users
users = (create_user (at 1) (bytes "e") (bytes "old") new_user_store).1

users-IsValid : UsersValid users
unfolding lookup
users-IsValid =
    create_user-IsValid new_user_store new_user_store-IsValid (at 1) (bytes "e") (bytes "old") refl

abbrev user : User
user = record {
  id = 1 ∷ [];
  email = bytes "e";
  password_hash = bytes "old";
  created_at = 1;
  updated_at = 1;
}

user_found : (get_by_email (bytes "e") users).0 ≡ ok user
unfolding get_by_email create_user lookup insert delete load ◌==◌
user_found = refl

update_password_hash-get_by_email_example :
    ((update_password_hash (at 2) user.id (bytes "new") users).0 ≡ ok tt)
    × ((get_by_email (bytes "e") (update_password_hash (at 2) user.id (bytes "new") users).1).0 ≡ (
        if bytes "e" == bytes "e"
        then ok (record user { password_hash = bytes "new"; updated_at = 2 })
        else (get_by_email (bytes "e") users).0))
update_password_hash-get_by_email_example =
    update_password_hash-get_by_email users users-IsValid (at 2) (bytes "e") (bytes "new")
      (bytes "e") user user_found

abbrev cached : CachedSession
cached = record {
  session_id = bytes "s";
  user_id = bytes "u";
  user_email = [];
  device_id = [];
  expires_at = 500;
}

get-set_example : (get (at 30) (bytes "h") (set (at 10) (bytes "h") cached 10 new).1).0 ≡ (
    if bytes "h" == bytes "h"
    then if ltb 20 30 then miss (bytes "h") else ok cached
    else (get (at 30) (bytes "h") new).0)
get-set_example = get-set (at 10) (at 30) (bytes "h") (bytes "h") new cached 10

abbrev otp : OtpRecord
otp = record { user_id = bytes "u"; otp_hash = bytes "h"; attempts = 2 }

abbrev resets : Resets
resets = record new_reset_store { otps = (bytes "e", record { otp = otp; expires_at = 500 }) ∷ [] }

otp_found : (get_otp (λ e. e) (at 1) (bytes "e") resets).0 ≡ ok otp
unfolding get_otp lookup ◌==◌
otp_found = refl

otp_counted : (attempt (λ e. e) (bytes "e") (at 1) (at 2) resets).0 ≡ ok 3
unfolding attempt get_otp incr_otp_attempts lookup ◌==◌
otp_counted = refl

attempt-counts_example :
    (3 ≡ 2 + 1)
    × ((o : OtpRecord)
        → (get_otp
            (λ e. e)
            (at 3)
            (bytes "e")
            (attempt (λ e. e) (bytes "e") (at 1) (at 2) resets).1).0
          ≡ ok o
        → (o.attempts ≡ 3) × (o.otp_hash ≡ bytes "h") × (o.user_id ≡ bytes "u"))
attempt-counts_example =
    attempt-counts (λ e. e) (bytes "e") (at 1) (at 2) (at 3) resets otp 3 otp_found otp_counted
