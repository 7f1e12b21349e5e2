-- ===== src/Jwt.antt =====
-- internal/adapters/token/jwt/jwt.go: access tokens as JSON Web Tokens. The library that encodes,
-- signs and parses them is a parameter.
pub mod Tokens
pub mod Tests
use auth_service.Prelude.{
  ℕ, ◌+◌, Text, Option, none, some, List, bytes, length, ltb, if◌then◌else◌, Bool, true, false,
}
use auth_service.Models.{Stamp}
use auth_service.Ports.{Error, other, Result, ok, err, Claims}

-- The Go type of a signing method, as the key functions tell them apart.
pub data Family : Type 0 where
  hmac rsa ecdsa unknown : Family

-- jwt.SigningMethodHS256, jwt.SigningMethodRS256, jwt.SigningMethodES256
pub data SigningMethod : Type 0 where
  hs256 rs256 es256 : SigningMethod

-- jwtClaims, with the registered claims that are set
pub record JwtClaims : Type 0 where
  pub user_id : Text
  pub email : Text
  pub roles : List Text
  pub subject : Text
  pub issued_at : ℕ
  pub expires_at : ℕ
  pub issuer : Text

-- (*jwtClaims).toPorts
abbrev pub to_ports : JwtClaims → Claims
to_ports c = record { user_id = c.user_id; email = c.email; roles = c.roles }

-- What the program uses of github.com/golang-jwt/jwt and of the key types.
pub record Library : Type 1 where
  pub Key : Type 0
  pub secret_key : Text → Key
  -- &priv.PublicKey
  pub public_key : Key → Key
  -- jwt.NewNumericDate
  pub numeric_date : ℕ → ℕ
  -- jwt.NewWithClaims(method, claims).SignedString(key)
  pub signed_string : SigningMethod → Key → JwtClaims → Option Text
  -- jwt.ParseWithClaims at a time, with the key function on the method of the token's header,
  -- WithExpirationRequired and WithIssuer: the claims, and whether the token is valid
  pub parse_with_claims : ℕ → Text → (Family → Option Key) → Text → Option (JwtClaims × Bool)

abbrev pub issuer_name : Text
issuer_name = bytes "auth-service"

module _ (lib : Library) where
  -- HS256Manager, RS256Manager and ES256Manager, each with its key and accessTTL
  pub data Manager : Type 0 where
    hs256_manager : Text → ℕ → Manager
    rs256_manager : lib.Key → ℕ → Manager
    es256_manager : lib.Key → ℕ → Manager

  -- NewHS256Manager: a short secret panics
  unfoldable pub new_hs256_manager : Text → ℕ → Option Manager
  new_hs256_manager secret access_ttl =
      if ltb (length secret) 32 then none else some (hs256_manager secret access_ttl)

  -- signToken
  unfoldable pub sign_token :
      Stamp → SigningMethod → lib.Key → Text → Text → List Text → ℕ → Result Error Text
  sign_token t method key user_id email roles ttl =
      elim (lib.signed_string method key (record {
        user_id = user_id;
        email = email;
        roles = roles;
        subject = user_id;
        issued_at = lib.numeric_date t.now;
        expires_at = lib.numeric_date (t.later + ttl);
        issuer = issuer_name;
      })) [ none ↦ err (other (bytes "sign token")) | some signed ↦ ok signed ]

  -- parseToken
  unfoldable pub parse_token : Stamp → Text → (Family → Option lib.Key) → Result Error Claims
  parse_token t token_str key_func =
      elim (lib.parse_with_claims t.now token_str key_func issuer_name) [
        | none ↦ err (other (bytes "parse token"))
        | some (claims, false) ↦ err (other (bytes "invalid token claims"))
        | some (claims, true) ↦ ok (to_ports claims)
      ]

  abbrev pub only_hmac : lib.Key → Family → Option lib.Key
  only_hmac key hmac = some key
  only_hmac key _ = none

  abbrev pub only_rsa : lib.Key → Family → Option lib.Key
  only_rsa key rsa = some key
  only_rsa key _ = none

  abbrev pub only_ecdsa : lib.Key → Family → Option lib.Key
  only_ecdsa key ecdsa = some key
  only_ecdsa key _ = none

  -- GenerateAccessToken of the three managers
  unfoldable pub generate_access_token :
      Manager → Stamp → Text → Text → List Text → Result Error Text
  unfolding sign_token
  generate_access_token (hs256_manager secret ttl) t user_id email roles =
      sign_token t hs256 (lib.secret_key secret) user_id email roles ttl
  generate_access_token (rs256_manager priv ttl) t user_id email roles =
      sign_token t rs256 priv user_id email roles ttl
  generate_access_token (es256_manager priv ttl) t user_id email roles =
      sign_token t es256 priv user_id email roles ttl

  -- ValidateAccessToken of the three managers
  unfoldable pub validate_access_token : Manager → Stamp → Text → Result Error Claims
  unfolding parse_token
  validate_access_token (hs256_manager secret ttl) t token_str =
      parse_token t token_str (only_hmac (lib.secret_key secret))
  validate_access_token (rs256_manager priv ttl) t token_str =
      parse_token t token_str (only_rsa (lib.public_key priv))
  validate_access_token (es256_manager priv ttl) t token_str =
      parse_token t token_str (only_ecdsa (lib.public_key priv))
