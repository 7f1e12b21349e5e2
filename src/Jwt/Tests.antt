-- ===== src/Jwt/Tests.antt =====
-- A library of tokens in clear, on which the theorems of the managers are applied.
use auth_service.Prelude.{
  ℕ, ◌+◌, ◌*◌, ◌≡◌, ◌<◌, refl, ap, sym, ◌∙◌, lt→ltb, Text, Option, none, some, List, [], ◌∷◌, ltb,
  eqb, if◌then◌else◌, Bool, true, arith,
}
use auth_service.Models.{Stamp}
use auth_service.Ports.{ok}
use auth_service.Jwt.{
  Family, hmac, rsa, ecdsa, unknown, SigningMethod, hs256, rs256, es256, JwtClaims, Library,
  Manager, rs256_manager, sign_token, parse_token, generate_access_token, validate_access_token,
}
use auth_service.Jwt.Tokens.{
  whole_seconds, family, Parses, NeedsKey, validate-generate, validate_family,
}

abbrev pub number : Family → ℕ
number hmac = 0
number rsa = 1
number ecdsa = 2
number unknown = 3

abbrev pub named : ℕ → Family
named n = if eqb n 0 then hmac else if eqb n 1 then rsa else if eqb n 2 then ecdsa else unknown

-- A token is its method, its two times, and the two identities; it is signed for one byte each,
-- without an address and roles.
abbrev pub signed : ℕ → ℕ → ℕ → Text → Text → Text → List Text → Option Text
signed n i e (x ∷ []) (y ∷ []) [] [] = some (n ∷ i ∷ e ∷ x ∷ y ∷ [])
signed n i e _ _ _ _ = none

abbrev pub read_claims : ℕ → ℕ → ℕ → ℕ → ℕ → Text → Option (Unit {0}) → Option (JwtClaims × Bool)
read_claims now i e x y iss none = none
read_claims now i e x y iss (some k) =
    if ltb now e
    then some (
      record {
        user_id = x ∷ [];
        email = [];
        roles = [];
        subject = y ∷ [];
        issued_at = i;
        expires_at = e;
        issuer = iss;
      },
      true,
    )
    else none

abbrev pub parsed : ℕ → Text → (Family → Option (Unit {0})) → Text → Option (JwtClaims × Bool)
parsed now (n ∷ i ∷ e ∷ x ∷ y ∷ []) f iss = read_claims now i e x y iss (f (named n))
parsed now _ f iss = none

abbrev pub library : Library
library = record {
  Key = Unit {0};
  secret_key = λ s. tt;
  public_key = λ k. k;
  numeric_date = whole_seconds;
  signed_string = λ m k c.
      signed (number (family m)) c.issued_at c.expires_at c.user_id c.subject c.email c.roles;
  parse_with_claims = parsed;
}

abbrev pub method_of : Text → Family
method_of (n ∷ i ∷ e ∷ x ∷ y ∷ []) = named n
method_of _ = unknown

named-number : (m : SigningMethod) → named (number (family m)) ≡ family m
named-number hs256 = refl
named-number rs256 = refl
named-number es256 = refl

read_signed :
    (now n i e x y : ℕ) (iss token : Text) (f : Family → Option (Unit {0}))
    → ◌≡◌ {A = Option Text} (some (n ∷ i ∷ e ∷ x ∷ y ∷ [])) (some token)
    → f (named n) ≡ some tt
    → now < e
    → parsed now token f iss
      ≡ some (
        record {
          user_id = x ∷ [];
          email = [];
          roles = [];
          subject = y ∷ [];
          issued_at = i;
          expires_at = e;
          issuer = iss;
        },
        true,
      )
read_signed now n i e x y iss token f st fg b =
    ap (λ t. parsed now t f iss) (sym (some_inj st)) ∙ found (f (named n)) fg
  where
    some_inj : {s t : Text} → ◌≡◌ {A = Option Text} (some s) (some t) → s ≡ t
    some_inj h = cc

    found :
        (o : Option (Unit {0}))
        → o ≡ some tt
        → read_claims now i e x y iss o
          ≡ some (
            record {
              user_id = x ∷ [];
              email = [];
              roles = [];
              subject = y ∷ [];
              issued_at = i;
              expires_at = e;
              issuer = iss;
            },
            true,
          )
    found none h = absurd cc
    found (some k) h = rw (lt→ltb now e b) refl

parsed-signed :
    (g : Family) (n i e : ℕ) (u s m : Text) (rs : List Text) (iss token : Text) (now : ℕ)
    (f : Family → Option (Unit {0}))
    → named n ≡ g
    → signed n i e u s m rs ≡ some token
    → f g ≡ some tt
    → now < e
    → parsed now token f iss
      ≡ some (
        record {
          user_id = u;
          email = m;
          roles = rs;
          subject = s;
          issued_at = i;
          expires_at = e;
          issuer = iss;
        },
        true,
      )
parsed-signed g n i e (x ∷ []) (y ∷ []) [] [] iss token now f ng st fg b =
    read_signed now n i e x y iss token f st (ap f ng ∙ fg) b
parsed-signed g n i e [] s m rs iss token now f ng st fg b = absurd cc
parsed-signed g n i e (x ∷ x' ∷ u) s m rs iss token now f ng st fg b = absurd cc
parsed-signed g n i e (x ∷ []) [] m rs iss token now f ng st fg b = absurd cc
parsed-signed g n i e (x ∷ []) (y ∷ y' ∷ s) m rs iss token now f ng st fg b = absurd cc
parsed-signed g n i e (x ∷ []) (y ∷ []) (z ∷ m) rs iss token now f ng st fg b = absurd cc
parsed-signed g n i e (x ∷ []) (y ∷ []) [] (r ∷ rs) iss token now f ng st fg b = absurd cc

library-Parses : Parses library
library-Parses m key c token now f plain st fg b =
    parsed-signed (family m) (number (family m)) c.issued_at c.expires_at c.user_id c.subject
      c.email c.roles c.issuer token now f (named-number m) st fg b

pub library-NeedsKey : NeedsKey library method_of
library-NeedsKey now (n ∷ i ∷ e ∷ x ∷ y ∷ []) iss f h = rw (h, read_claims) refl
library-NeedsKey now [] iss f h = refl
library-NeedsKey now (n ∷ []) iss f h = refl
library-NeedsKey now (n ∷ i ∷ []) iss f h = refl
library-NeedsKey now (n ∷ i ∷ e ∷ []) iss f h = refl
library-NeedsKey now (n ∷ i ∷ e ∷ x ∷ []) iss f h = refl
library-NeedsKey now (n ∷ i ∷ e ∷ x ∷ y ∷ z ∷ t) iss f h = refl

abbrev pub manager : Manager library
manager = rs256_manager tt 100000000000

-- The clock at a second, and a moment later.
abbrev pub at : ℕ → Stamp
at n = record { now = n * 1000000000; later = n * 1000000000 + 500; uuid = []; entropy = λ k. none }

abbrev pub token : Text
token = 1 ∷ 10000000000 ∷ 110000000000 ∷ 7 ∷ 7 ∷ []

token_generated : generate_access_token library manager (at 10) (7 ∷ []) [] [] ≡ ok token
unfolding generate_access_token sign_token
token_generated = refl

pub token_accepted :
    validate_access_token library manager (at 20) token
    ≡ ok (record { user_id = 7 ∷ []; email = []; roles = [] })
unfolding validate_access_token parse_token
token_accepted = refl

validate-generate_example :
    validate_access_token library manager (at 20) token
    ≡ ok (record { user_id = 7 ∷ []; email = []; roles = [] })
validate-generate_example =
    validate-generate library library-Parses (λ t. refl) manager (at 10) (at 20) (7 ∷ []) [] []
      token ((omega arith, tt), tt, tt) (omega arith, omega arith) token_generated (omega arith)

validate_family_example : method_of token ≡ rsa
validate_family_example =
    validate_family library method_of library-NeedsKey manager (at 20) token
      (record { user_id = 7 ∷ []; email = []; roles = [] }) token_accepted
