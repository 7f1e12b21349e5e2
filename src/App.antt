-- ===== src/App.antt =====
-- internal/app/app.go: the choice of the signing method and the loading of keys. Files, PEM blocks
-- and the forms of keys are parameters.
pub mod Keys
pub mod Tests
use auth_service.Prelude.{
  ℕ, Text, Option, none, some, [], ◌∷◌, bytes, ◌==◌, if◌then◌else◌, ◌||◌, Bool, true, false,
}
use auth_service.Jwt.{
  Library, Family, hmac, rsa, ecdsa, unknown, Manager, hs256_manager, rs256_manager, es256_manager,
  new_hs256_manager,
}

-- JWTConfig of internal/config/config.go
pub record JwtConfig : Type 0 where
  pub secret : Text
  pub access_ttl : ℕ
  pub refresh_ttl : ℕ
  pub algorithm : Text
  pub private_key_path : Text

-- os, encoding/pem and crypto/x509; a key of PKCS #8 comes with its Go type
pub record KeyLibrary (lib : Library) : Type 0 where
  pub read_file : Text → Option Text
  pub pem_decode : Text → Option Text
  pub parse_pkcs1 : Text → Option lib.Key
  pub parse_ec : Text → Option lib.Key
  pub parse_pkcs8 : Text → Option (Family × lib.Key)

-- What a start comes to: a manager, an error, or the panic of NewHS256Manager.
pub data Built (A : Type 0) : Type 0 where
  built : A → Built A
  failed : Text → Built A
  panicked : Built A

module _ (lib : Library) (keys : KeyLibrary lib) where
  open keys use {read_file, pem_decode, parse_pkcs1, parse_ec, parse_pkcs8}

  -- key.(*rsa.PrivateKey)
  abbrev pub only_rsa_key : Option (Family × lib.Key) → Option lib.Key
  only_rsa_key (some (rsa, key)) = some key
  only_rsa_key _ = none

  -- key.(*ecdsa.PrivateKey)
  abbrev pub only_ecdsa_key : Option (Family × lib.Key) → Option lib.Key
  only_ecdsa_key (some (ecdsa, key)) = some key
  only_ecdsa_key _ = none

  -- parseRSAKey; its errors differ in their texts alone
  unfoldable pub parse_rsa_key : Text → Option lib.Key
  parse_rsa_key pem_bytes = elim (pem_decode pem_bytes) [
    | none ↦ none
    | some block ↦ elim (parse_pkcs1 block) [
      | some key ↦ some key
      | none ↦ only_rsa_key (parse_pkcs8 block)
    ]
  ]

  -- parseECDSAKey
  unfoldable pub parse_ecdsa_key : Text → Option lib.Key
  parse_ecdsa_key pem_bytes = elim (pem_decode pem_bytes) [
    | none ↦ none
    | some block ↦ elim (parse_ec block) [
      | some key ↦ some key
      | none ↦ only_ecdsa_key (parse_pkcs8 block)
    ]
  ]

  abbrev pub secret_manager : Option (Manager lib) → Built (Manager lib)
  secret_manager none = panicked
  secret_manager (some m) = built m

  -- The manager of a key file, by its parser and constructor.
  abbrev pub key_manager :
      Option Text → (Text → Option lib.Key) → (lib.Key → Manager lib) → Text → Built (Manager lib)
  key_manager none parse new name = failed (bytes "read key")
  key_manager (some pem_bytes) parse new name = elim (parse pem_bytes) [
    | none ↦ failed name
    | some key ↦ built (new key)
  ]

  -- buildTokenManager
  unfoldable pub build_token_manager : JwtConfig → Built (Manager lib)
  unfolding parse_rsa_key parse_ecdsa_key new_hs256_manager
  build_token_manager cfg =
      if cfg.algorithm == [] || cfg.algorithm == bytes "hs256"
      then secret_manager (new_hs256_manager lib cfg.secret cfg.access_ttl)
      else if cfg.algorithm == bytes "rs256"
      then key_manager (read_file cfg.private_key_path) parse_rsa_key
          (λ key. rs256_manager key cfg.access_ttl) (bytes "parse RSA key")
      else if cfg.algorithm == bytes "es256"
      then key_manager (read_file cfg.private_key_path) parse_ecdsa_key
          (λ key. es256_manager key cfg.access_ttl) (bytes "parse ECDSA key")
      else failed (bytes "unsupported JWT_ALGORITHM")
