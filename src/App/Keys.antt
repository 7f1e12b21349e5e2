-- ===== src/App/Keys.antt =====
-- internal/app/app.go: the manager that a configuration comes to, and the tokens it accepts.
use auth_service.Prelude.{
  ℕ, ◌≡◌, ◌≤◌, refl, sym, ◌∙◌, ◌≢◌, subst, inl, inr, Text, Option, none, some, [], bytes, length,
  ltb, ◌==◌, eq_iff, true, Bool-cases, Option-cases, arith,
}
use auth_service.Models.{Stamp}
use auth_service.Ports.{ok, Claims}
use auth_service.Jwt.{
  Library, Family, hmac, rsa, ecdsa, Manager, rs256_manager, es256_manager, new_hs256_manager,
  validate_access_token,
}
use auth_service.Jwt.Tokens.{NeedsKey, family_of, validate_family}
use auth_service.App.{
  JwtConfig, KeyLibrary, built, secret_manager, key_manager, parse_rsa_key, parse_ecdsa_key,
  build_token_manager,
}

-- The family of methods that a name of an algorithm stands for.
pub data Named : Text → Family → Type 0 where
  by_default : Named [] hmac
  named_hs256 : Named (bytes "hs256") hmac
  named_rs256 : Named (bytes "rs256") rsa
  named_es256 : Named (bytes "es256") ecdsa

module _ (lib : Library) (keys : KeyLibrary lib) where
  secret_manager-built :
      (secret : Text) (ttl : ℕ) (m : Manager lib)
      → secret_manager lib keys (new_hs256_manager lib secret ttl) ≡ built m
      → (family_of lib m ≡ hmac) × (32 ≤ length secret)
  unfolding new_hs256_manager
  secret_manager-built secret ttl m e = elim (Bool-cases (ltb (length secret) 32)) [
    | inl b ↦ absurd (ground arith)
    | inr b ↦ ground arith
  ]

  key_manager-built :
      (file : Option Text) (parse : Text → Option lib.Key) (new : lib.Key → Manager lib)
      (name : Text) (m : Manager lib) (f : Family)
      → ((key : lib.Key) → family_of lib (new key) ≡ f)
      → key_manager lib keys file parse new name ≡ built m
      → family_of lib m ≡ f
  key_manager-built none parse new name m f h e = absurd (ground arith)
  key_manager-built (some pem) parse new name m f h e = elim (Option-cases (parse pem)) [
    | inl n ↦ absurd (ground arith)
    | inr (key, n) ↦ let fits = h key in ground arith
  ]

  of_name : (a name : Text) (f g : Family) → Named name f → (a == name) ≡ true → g ≡ f → Named a g
  of_name a name f g n b e =
      subst (λ x. Named x g) (sym ((eq_iff a name).0 b)) (subst (λ x. Named name x) (sym e) n)

  -- What a built manager is: of the named family, and of a long secret.
  abbrev Configured : JwtConfig → Manager lib → Type 0
  Configured cfg m =
      Named cfg.algorithm (family_of lib m) × (family_of lib m ≡ hmac → 32 ≤ length cfg.secret)

  asymmetric :
      (cfg : JwtConfig) (m : Manager lib) (name : Text) (f : Family)
      → Named name f
      → (cfg.algorithm == name) ≡ true
      → f ≢ hmac
      → family_of lib m ≡ f
      → Configured cfg m
  asymmetric cfg m name f n b ne e = (of_name _ name f _ n b e, λ h. absurd (ne (sym e ∙ h)))

  build_token_manager-Configured :
      (cfg : JwtConfig) (m : Manager lib)
      → build_token_manager lib keys cfg ≡ built m
      → Configured cfg m
  unfolding build_token_manager
  build_token_manager-Configured cfg m e =
      let of_file = λ (parse : Text → Option lib.Key). λ (new : lib.Key → Manager lib).
        λ (name : Text). λ (f : Family).
          key_manager-built (keys.read_file cfg.private_key_path) parse new name m f in
      elim (Bool-cases (cfg.algorithm == [])) [
        | inl b ↦
            let (h, l) = secret_manager-built cfg.secret cfg.access_ttl m (cc) in
            (of_name _ _ _ _ by_default b h, λ _. l)
        | inr b ↦ elim (Bool-cases (cfg.algorithm == bytes "hs256")) [
          | inl b₁ ↦
              let (h, l) = secret_manager-built cfg.secret cfg.access_ttl m (cc) in
              (of_name _ _ _ _ named_hs256 b₁ h, λ _. l)
          | inr b₁ ↦ elim (Bool-cases (cfg.algorithm == bytes "rs256")) [
            | inl b₂ ↦ asymmetric cfg m _ rsa named_rs256 b₂ (cc) (
                of_file (parse_rsa_key lib keys) (λ key. rs256_manager key cfg.access_ttl)
                  (bytes "parse RSA key") rsa (λ key. refl) (cc))
            | inr b₂ ↦ elim (Bool-cases (cfg.algorithm == bytes "es256")) [
              | inl b₃ ↦ asymmetric cfg m _ ecdsa named_es256 b₃ (cc) (
                  of_file (parse_ecdsa_key lib keys) (λ key. es256_manager key cfg.access_ttl)
                    (bytes "parse ECDSA key") ecdsa (λ key. refl) (cc))
              | inr b₃ ↦ absurd (cc)
            ]
          ]
        ]
      ]

  -- When the start builds a manager for access tokens and the library parses no token without a key,
  -- then every token the manager accepts names a method of the family that JWT_ALGORITHM stands for
  -- (HMAC for the empty name), and a manager of HMAC has a secret of 32 bytes or more. So no token
  -- signed with HMAC is accepted under rs256 or es256.
  pub build_token_manager_accepts :
      (cfg : JwtConfig) (m : Manager lib) (method_of : Text → Family) (t : Stamp) (token : Text)
      (c : Claims)
      → NeedsKey lib method_of
      → build_token_manager lib keys cfg ≡ built m
      → validate_access_token lib m t token ≡ ok c
      → Named cfg.algorithm (method_of token) × (method_of token ≡ hmac → 32 ≤ length cfg.secret)
  build_token_manager_accepts cfg m method_of t token c needs e v =
      let same = validate_family lib method_of needs m t token c v in
      subst (λ f. Named cfg.algorithm f × (f ≡ hmac → 32 ≤ length cfg.secret)) (sym same)
        (build_token_manager-Configured cfg m e)
