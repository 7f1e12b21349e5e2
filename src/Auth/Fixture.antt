-- ===== src/Auth/Fixture.antt =====
-- A service over the in-memory backends, on which the handlers' theorems are applied.
use auth_service.Prelude.{◌+◌, refl, Text, none, some, [], ◌∷◌, bytes, true, ltb}
use auth_service.Prelude.Maps.{lookup}
use auth_service.Models.{Session, Stamp}
use auth_service.Ports.{ok}
use auth_service.Context.{Context}
use auth_service.Memory.Users.{
  new_user_store, user_store, create as create_user, get_by_email, get_by_id, update_password_hash,
}
use auth_service.Memory.Sessions.{
  new_session_store, session_store, find_by_hash, find_by_id, put, drop, create, get_by_token_hash,
  delete_by_id, delete_by_token_hash, rotate_token, delete_where, delete_all_by_user_id,
  delete_all_by_user_id_except,
}
use auth_service.Memory.Sessions.Invariant.{IsValid, new_session_store-IsValid}
use auth_service.Memory.Sessions.Single.{create-IsValid}
use auth_service.Memory.Cache.{Cache, new, session_cache}
use auth_service.Memory.Resets.{
  new_reset_store, reset_store, save_otp, get_otp, incr_otp_attempts, delete_otp, save_reset_token,
  get_reset_token, delete_reset_token,
}
use auth_service.Auth.Monad.{Deps, State}
use auth_service.Auth.Login.{Tokens}
use auth_service.Auth.Refresh.{RefreshRequest}

-- A digest that is its input: the hash of a token is its text in hex.
abbrev pub deps : Deps
deps = record {
  Users = auth_service.Memory.Users.Users;
  Sessions = auth_service.Memory.Sessions.Sessions;
  Cache = Cache;
  Resets = auth_service.Memory.Resets.Resets;
  Server = Unit {0};
  user_store = user_store;
  session_store = session_store;
  session_cache = session_cache;
  reset_store = reset_store (λ e. e);
  token_mgr = record {
    generate_access_token = λ t id email roles. ok id;
    validate_access_token = λ t token. ok (record { user_id = token; email = []; roles = [] });
  };
  redis = record {
    exists = λ k s. (none, s);
    set = λ k v ttl s. (none, s);
    del = λ ks s. (none, s);
    get_int = λ k s. (none, s);
    eval = λ f s. (none, s);
    get = λ k s. (none, s);
    call_get = λ k s. none;
    pttl = λ k s. 0;
    set_px = λ k v ttl s. s;
    incr = λ k s. (1, s);
    expire = λ k n s. s;
  };
  has_audit = true;
  has_hook = true;
  brute_guard = some (record { max_attempts = 5; window = 900; lockout_ttl = 900 });
  refresh_ttl = 1000;
  sha256 = λ b. b;
  id_key = λ p salt i m t n. p;
  is_letter = λ c. ltb 64 c;
  is_digit = λ c. ltb c 58;
  stamp = λ n. record {
    now = 100 + n;
    later = 100 + n;
    uuid = n ∷ [];
    entropy = λ k. some (n ∷ 2 ∷ 3 ∷ []);
  };
}

abbrev pub stamp : Stamp
stamp = record { now = 50; later = 50; uuid = bytes "u"; entropy = λ k. none }

abbrev pub session_of : Text → Text → Session
session_of id token = record {
  id = id;
  user_id = bytes "u";
  user_email = [];
  token_hash = token;
  device_id = [];
  user_agent = [];
  ip_address = [];
  expires_at = 500;
  last_used_at = 0;
  created_at = 0;
}

-- The hash of the token `t` of one byte is its two digits.
abbrev pub token : Text
token = bytes "t"

abbrev pub token_hash : Text
token_hash = bytes "74"

abbrev pub one_session : auth_service.Memory.Sessions.Sessions
one_session = (create stamp (session_of (bytes "s") token_hash) new_session_store).1

pub one_session-IsValid : IsValid one_session
unfolding lookup
one_session-IsValid =
    create-IsValid stamp (session_of (bytes "s") token_hash) new_session_store
      new_session_store-IsValid (refl, refl)

abbrev pub email : Text
email = bytes "a@b.co"

-- The password `secret12` under a salt of one byte.
abbrev pub password_hash : Text
password_hash = bytes "$argon2id$v=19$m=65536,t=3,p=4$AQ$c2VjcmV0MTI"

abbrev pub code_record : auth_service.Memory.Resets.OtpEntry
code_record = record {
  otp = record { user_id = bytes "u"; otp_hash = token_hash; attempts = 0 };
  expires_at = 500;
}

abbrev pub token_record : auth_service.Memory.Resets.ResetTokenEntry
token_record = record { token = record { user_id = bytes "u"; email = email }; expires_at = 500 }

-- One user with one session, a code and a reset token.
abbrev pub state : State deps
state = record {
  users = (create_user stamp email password_hash new_user_store).1;
  sessions = one_session;
  cache = new;
  resets = record {
    otps = (email, code_record) ∷ [];
    reset_tokens = (token_hash, token_record) ∷ [];
  };
  guard = record { redis = tt; entries = [] };
  calls = 0;
  tasks = [];
}

-- A call with an access token of the user.
abbrev pub context : Context
context = record {
  metadata = some ((bytes "authorization", bytes "Bearer u" ∷ []) ∷ []);
  peer = some (bytes "10.0.0.1:80");
}

abbrev pub refresh : RefreshRequest
refresh = record { refresh_token = token; device_id = [] }

-- The reply with a refresh token, and the user's ID as access token.
abbrev pub new_tokens : Text → Tokens
new_tokens t = record { access_token = bytes "u"; refresh_token = t }
