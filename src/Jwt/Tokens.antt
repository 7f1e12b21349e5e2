-- ===== src/Jwt/Tokens.antt =====
-- internal/adapters/token/jwt/jwt.go: what a manager signs it accepts, and no other kind of token.
use auth_service.Prelude.{
  ℕ, ◌+◌, ◌-◌, ◌%◌, ◌≡◌, ◌<◌, ◌≢◌, refl, inl, inr, Text, Option, none, some, List, true, arith,
  Option-cases,
}
use auth_service.Strings.Ascii.{IsAscii, AllAscii}
use auth_service.Models.{Stamp}
use auth_service.Ports.{ok, Claims}
use auth_service.Jwt.{
  Family, hmac, rsa, ecdsa, unknown, SigningMethod, hs256, rs256, es256, JwtClaims, Library,
  issuer_name, Manager, hs256_manager, rs256_manager, es256_manager, sign_token, parse_token,
  generate_access_token, validate_access_token,
}

abbrev pub family : SigningMethod → Family
family hs256 = hmac
family rs256 = rsa
family es256 = ecdsa

-- The start of the second that a time of nanoseconds is in.
abbrev pub whole_seconds : ℕ → ℕ
whole_seconds t = t - t % 1000000000

-- 2 ^ 63
abbrev pub time_bound : ℕ
time_bound = 9223372036854775808

module _ (lib : Library) where
  -- The key that a signature of the method is checked with.
  abbrev pub checking_key : SigningMethod → lib.Key → lib.Key
  checking_key hs256 key = key
  checking_key rs256 key = lib.public_key key
  checking_key es256 key = lib.public_key key

  -- Claims that JSON keeps as they are: of ASCII, with times of whole seconds whose nanoseconds
  -- since 1970 fit in 63 bits.
  abbrev IsPlain : JwtClaims → Type 0
  IsPlain c =
      IsAscii c.user_id
      × IsAscii c.email
      × AllAscii c.roles
      × IsAscii c.subject
      × IsAscii c.issuer
      × ((c.issued_at ≡ whole_seconds c.issued_at) × (c.issued_at < time_bound))
      × ((c.expires_at ≡ whole_seconds c.expires_at) × (c.expires_at < time_bound))

  -- A token signed for plain claims is parsed, with the right key, back to them before it expires.
  abbrev pub Parses : Type 0
  Parses =
      (method : SigningMethod) (key : lib.Key) (c : JwtClaims) (token : Text) (now : ℕ)
      (f : Family → Option lib.Key)
      → IsPlain c
      → lib.signed_string method key c ≡ some token
      → f (family method) ≡ some (checking_key method key)
      → now < c.expires_at
      → lib.parse_with_claims now token f c.issuer ≡ some (c, true)

  -- jwt.NewNumericDate cuts a time to jwt.TimePrecision, which is a second.
  abbrev pub Truncates : Type 0
  Truncates = (t : ℕ) → lib.numeric_date t ≡ whole_seconds t

  -- A token for whose method there is no key is not parsed.
  abbrev pub NeedsKey : (Text → Family) → Type 0
  NeedsKey method_of =
      (now : ℕ) (token issuer : Text) (f : Family → Option lib.Key)
      → f (method_of token) ≡ none
      → lib.parse_with_claims now token f issuer ≡ none

  abbrev pub access_ttl : Manager lib → ℕ
  access_ttl (hs256_manager secret ttl) = ttl
  access_ttl (rs256_manager priv ttl) = ttl
  access_ttl (es256_manager priv ttl) = ttl

  abbrev pub family_of : Manager lib → Family
  family_of (hs256_manager secret ttl) = hmac
  family_of (rs256_manager priv ttl) = rsa
  family_of (es256_manager priv ttl) = ecdsa

  parse-sign :
      (parses : Parses) (truncates : Truncates) (t t' : Stamp) (method : SigningMethod)
      (key : lib.Key) (user_id email : Text) (roles : List Text) (ttl : ℕ) (token : Text)
      (f : Family → Option lib.Key)
      → IsAscii user_id × IsAscii email × AllAscii roles
      → (t.now < time_bound) × (t.later + ttl < time_bound)
      → f (family method) ≡ some (checking_key method key)
      → t'.now < whole_seconds (t.later + ttl)
      → sign_token lib t method key user_id email roles ttl ≡ ok token
      → parse_token lib t' token f ≡ ok (record { user_id = user_id; email = email; roles = roles })
  unfolding sign_token parse_token
  parse-sign parses truncates t t' method key user_id email roles ttl token f (u, m, rs) (now, end)
        k b e =
      elim (Option-cases (lib.signed_string method key c)) [
        | inl n ↦ absurd (ground arith)
        | inr (signed, n) ↦
            let same : signed ≡ token = ground arith in
            let p =
              parses method key c signed t'.now f plain n k (rw (truncates (t.later + ttl)) b) in
            ground arith
      ]
    where
      c : JwtClaims
      c = record {
        user_id = user_id;
        email = email;
        roles = roles;
        subject = user_id;
        issued_at = lib.numeric_date t.now;
        expires_at = lib.numeric_date (t.later + ttl);
        issuer = issuer_name;
      }

      dated :
          (t : ℕ)
          → t < time_bound
          → (lib.numeric_date t ≡ whole_seconds (lib.numeric_date t))
            × (lib.numeric_date t < time_bound)
      dated t b = rw (truncates t) (omega arith, omega arith)

      plain : IsPlain c
      plain = (u, m, rs, u, ground arith, dated t.now now, dated (t.later + ttl) end)

  -- With a library that parses what it signed and cuts times to whole seconds: an access token that
  -- a manager generated for a user ID, an address and roles of ASCII, at a time whose nanoseconds since
  -- 1970 fit in 63 bits until the token's end, is accepted by the same manager until the second in
  -- which its time to live is over, with that user ID, address and roles.
  pub validate-generate :
      (parses : Parses) (truncates : Truncates) (m : Manager lib) (t t' : Stamp)
      (user_id email : Text) (roles : List Text) (token : Text)
      → IsAscii user_id × IsAscii email × AllAscii roles
      → (t.now < time_bound) × (t.later + access_ttl m < time_bound)
      → generate_access_token lib m t user_id email roles ≡ ok token
      → t'.now < whole_seconds (t.later + access_ttl m)
      → validate_access_token lib m t' token
        ≡ ok (record { user_id = user_id; email = email; roles = roles })
  unfolding generate_access_token validate_access_token
  validate-generate parses cut (hs256_manager secret ttl) t t' u em rs token p q e b =
      parse-sign parses cut t t' hs256 (lib.secret_key secret) u em rs ttl token _ p q refl b e
  validate-generate parses cut (rs256_manager priv ttl) t t' u em rs token p q e b =
      parse-sign parses cut t t' rs256 priv u em rs ttl token _ p q refl b e
  validate-generate parses cut (es256_manager priv ttl) t t' u em rs token p q e b =
      parse-sign parses cut t t' es256 priv u em rs ttl token _ p q refl b e

  unparsed :
      (t : Stamp) (token : Text) (f : Family → Option lib.Key)
      → lib.parse_with_claims t.now token f issuer_name ≡ none
      → (c : Claims) → parse_token lib t token f ≢ ok c
  unfolding parse_token
  unparsed t token f n c e = ground arith

  -- With a library that parses no token without a key, a manager accepts no token whose header names
  -- a method of another family than its own.
  pub validate_family :
      (method_of : Text → Family) (needs : NeedsKey method_of) (m : Manager lib) (t : Stamp)
      (token : Text) (c : Claims)
      → validate_access_token lib m t token ≡ ok c
      → method_of token ≡ family_of m
  unfolding validate_access_token
  validate_family method_of needs m t token c e =
      by m (method_of token) (needs t.now token issuer_name) e
    where
      by :
          (m : Manager lib) (g : Family)
          → ((f : Family → Option lib.Key)
              → f g ≡ none
              → lib.parse_with_claims t.now token f issuer_name ≡ none)
          → validate_access_token lib m t token ≡ ok c
          → g ≡ family_of m
      by (hs256_manager s ttl) hmac n e = refl
      by (hs256_manager s ttl) rsa n e = absurd (unparsed t token _ (n _ refl) c e)
      by (hs256_manager s ttl) ecdsa n e = absurd (unparsed t token _ (n _ refl) c e)
      by (hs256_manager s ttl) unknown n e = absurd (unparsed t token _ (n _ refl) c e)
      by (rs256_manager s ttl) hmac n e = absurd (unparsed t token _ (n _ refl) c e)
      by (rs256_manager s ttl) rsa n e = refl
      by (rs256_manager s ttl) ecdsa n e = absurd (unparsed t token _ (n _ refl) c e)
      by (rs256_manager s ttl) unknown n e = absurd (unparsed t token _ (n _ refl) c e)
      by (es256_manager s ttl) hmac n e = absurd (unparsed t token _ (n _ refl) c e)
      by (es256_manager s ttl) rsa n e = absurd (unparsed t token _ (n _ refl) c e)
      by (es256_manager s ttl) ecdsa n e = refl
      by (es256_manager s ttl) unknown n e = absurd (unparsed t token _ (n _ refl) c e)
