-- ===== src/App/Tests.antt =====
-- The start of the program with a key file of one line.
use auth_service.Prelude.{◌≡◌, ◌≤◌, refl, Text, none, some, [], ◌∷◌, bytes, length, if◌then◌else◌}
use auth_service.Prelude.Lists.{◌==◌}
use auth_service.Jwt.{rsa, hmac, new_hs256_manager}
use auth_service.Jwt.Tests.{
  library, method_of, library-NeedsKey, manager, at, token, token_accepted,
}
use auth_service.App.{
  JwtConfig, KeyLibrary, built, panicked, failed, parse_rsa_key, parse_ecdsa_key,
  build_token_manager,
}
use auth_service.App.Keys.{Named, build_token_manager_accepts}

-- One file, whose key is of PKCS #8 and RSA.
abbrev keys : KeyLibrary library
keys = record {
  read_file = λ path. if path == bytes "key.pem" then some (bytes "pem") else none;
  pem_decode = λ s. if s == bytes "pem" then some (bytes "der") else none;
  parse_pkcs1 = λ s. none;
  parse_ec = λ s. none;
  parse_pkcs8 = λ s. if s == bytes "der" then some (rsa, tt) else none;
}

abbrev config : Text → Text → JwtConfig
config algorithm path = record {
  secret = bytes "too short";
  access_ttl = 100000000000;
  refresh_ttl = 1000;
  algorithm = algorithm;
  private_key_path = path;
}

built_rs256 :
    build_token_manager library keys (config (bytes "rs256") (bytes "key.pem")) ≡ built manager
unfolding build_token_manager parse_rsa_key ◌==◌
built_rs256 = refl

-- A key of the other kind, a missing file, a short secret and an unknown name.
wrong_kind :
    build_token_manager library keys (config (bytes "es256") (bytes "key.pem"))
    ≡ failed (bytes "parse ECDSA key")
unfolding build_token_manager parse_ecdsa_key ◌==◌
wrong_kind = refl

no_file :
    build_token_manager library keys (config (bytes "rs256") (bytes "other.pem"))
    ≡ failed (bytes "read key")
unfolding build_token_manager ◌==◌
no_file = refl

short_secret : build_token_manager library keys (config [] []) ≡ panicked
unfolding build_token_manager new_hs256_manager ◌==◌
short_secret = refl

unknown_name :
    build_token_manager library keys (config (bytes "HS256") [])
    ≡ failed (bytes "unsupported JWT_ALGORITHM")
unfolding build_token_manager ◌==◌
unknown_name = refl

build_token_manager_accepts_example :
    Named (bytes "rs256") (method_of token)
    × (method_of token ≡ hmac → 32 ≤ length (bytes "too short"))
build_token_manager_accepts_example =
    build_token_manager_accepts library keys (config (bytes "rs256") (bytes "key.pem")) manager
      method_of (at 20) token (record { user_id = 7 ∷ []; email = []; roles = [] }) library-NeedsKey
      built_rs256 token_accepted
