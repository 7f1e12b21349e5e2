-- ===== src/Password/Tests.antt =====
-- The round trip of Hash and Verify, with a stand-in for argon2.IDKey.
use auth_service.Prelude.{
  ℕ, zero, suc, ◌≡◌, refl, Text, some, List, [], ◌∷◌, ◌++◌, bytes, length, ◌%◌, ◌==◌, arith, true,
}
use auth_service.Models.{Stamp}
use auth_service.Ports.{ok}
use auth_service.Encoding.Base64.{AllBytes}
use auth_service.Encoding.{base64_digit, encode, decimal}
use auth_service.Password.{hash, verify}
use auth_service.Password.RoundTrip.{GivesBytes, key_of, verify-hash}

-- So many bytes, the first ones those of a text.
unfoldable fit : Text → ℕ → List ℕ
fit p zero = []
fit [] (suc n) = 0 ∷ fit [] n
fit (b ∷ p) (suc n) = b % 256 ∷ fit p n

fit-AllBytes : (p : Text) (n : ℕ) → AllBytes (fit p n)
unfolding fit
fit-AllBytes p zero = tt
fit-AllBytes [] (suc n) = (omega arith, fit-AllBytes [] n)
fit-AllBytes (b ∷ p) (suc n) = (omega arith, fit-AllBytes p n)

length-fit : (p : Text) (n : ℕ) → length (fit p n) ≡ n
unfolding fit
length-fit p zero = ground arith
length-fit [] (suc n) = ground (arith, length-fit [] n)
length-fit (b ∷ p) (suc n) = ground (arith, length-fit p n)

abbrev id_key : Text → List ℕ → ℕ → ℕ → ℕ → ℕ → List ℕ
id_key p salt i m t n = fit (salt ++ p) n

id_key-GivesBytes : GivesBytes id_key
id_key-GivesBytes p salt i m t n = (fit-AllBytes (salt ++ p) n, length-fit (salt ++ p) n)

abbrev salt : List ℕ
salt = 7 ∷ 255 ∷ 0 ∷ 19 ∷ []

abbrev stamp : Stamp
stamp = record { now = 5; later = 6; uuid = []; entropy = λ n. some salt }

abbrev password : Text
password = bytes "secret12"

abbrev encoded : Text
encoded = bytes "$argon2id$v=19$m=65536,t=3,p=4$B/8AEw$B/8AE3NlY3JldDEyAAAAAAAAAAAAAAAAAAAAAAAAAAA"

hashed : hash id_key stamp password ≡ ok encoded
unfolding hash encode base64_digit fit decimal
hashed = refl

verify-hash_example :
    ((q : Text)
      → verify id_key q encoded ≡ ok (key_of id_key q salt == key_of id_key password salt))
    × (verify id_key password encoded ≡ ok true)
verify-hash_example =
    verify-hash id_key stamp password salt encoded id_key-GivesBytes
      (omega arith, (omega arith, (omega arith, (omega arith, tt)))) refl hashed
