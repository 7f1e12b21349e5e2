-- ===== src/Encoding.antt =====
-- What the service uses of Go's `encoding/hex`, `encoding/base64` and `encoding/binary`.
pub mod Base64
use auth_service.Prelude.{
  ℕ, zero, suc, ◌+◌, ◌-◌, ◌*◌, ◌/◌, ◌%◌, Text, Option, none, some, List, [], ◌∷◌, ◌++◌, ltb, leb,
  eqb, ◌&&◌, if◌then◌else◌,
}

-- A digit of lower-case hexadecimal.
unfoldable pub hex_digit : ℕ → ℕ
hex_digit n = if ltb n 10 then b'0' + n else b'a' + (n - 10)

-- hex.EncodeToString
unfoldable pub hex : List ℕ → Text
unfolding hex_digit
hex [] = []
hex (b ∷ bs) = hex_digit (b / 16) ∷ hex_digit (b % 16) ∷ hex bs

-- The alphabet of base64; `c62` and `c63` are its last two characters.
unfoldable pub base64_digit : ℕ → ℕ → ℕ → ℕ
base64_digit c62 c63 n =
    if ltb n 26
    then b'A' + n
    else if ltb n 52
    then b'a' + (n - 26)
    else if ltb n 62
    then b'0' + (n - 52)
    else if eqb n 62
    then c62
    else c63

-- The value of a character of the alphabet.
unfoldable pub base64_value : ℕ → ℕ → ℕ → Option ℕ
base64_value c62 c63 c =
    if leb b'A' c && leb c b'Z'
    then some (c - b'A')
    else if leb b'a' c && leb c b'z'
    then some (c - b'a' + 26)
    else if leb b'0' c && leb c b'9'
    then some (c - b'0' + 52)
    else if eqb c c62
    then some 62
    else if eqb c c63
    then some 63
    else none

-- Base64 with the last characters and the padding given.
module _ (c62 c63 : ℕ) (pad : Text) where
  unfoldable pub encode : List ℕ → Text
  unfolding base64_digit
  encode [] = []
  encode (a ∷ []) = base64_digit c62 c63 (a / 4) ∷ base64_digit c62 c63 (a % 4 * 16) ∷ (pad ++ pad)
  encode (a ∷ b ∷ []) =
      base64_digit c62 c63 (a / 4)
      ∷ base64_digit c62 c63 (a % 4 * 16 + b / 16)
      ∷ base64_digit c62 c63 (b % 16 * 4)
      ∷ pad
  encode (a ∷ b ∷ c ∷ bs) =
      base64_digit c62 c63 (a / 4)
      ∷ base64_digit c62 c63 (a % 4 * 16 + b / 16)
      ∷ base64_digit c62 c63 (b % 16 * 4 + c / 64)
      ∷ base64_digit c62 c63 (c % 64)
      ∷ encode bs

-- base64.URLEncoding.EncodeToString
abbrev pub url_encode : List ℕ → Text
url_encode = encode b'-' b'_' (b'=' ∷ [])

-- base64.RawStdEncoding.EncodeToString
abbrev pub raw_encode : List ℕ → Text
raw_encode = encode b'+' b'/' []

-- The values of the characters; line ends are skipped, any other foreign character is an error.
unfoldable pub values : Text → Option (List ℕ)
unfolding base64_value
values [] = some []
values (c ∷ s) =
    let rest = values s in
    if eqb c 10 then rest else if eqb c 13 then rest else elim (base64_value b'+' b'/' c) [
      | none ↦ none
      | some v ↦ elim rest [ none ↦ none | some vs ↦ some (v ∷ vs) ]
    ]

-- Four values make three bytes; two or three left over make one or two, one left over is an error.
unfoldable pub regroup : List ℕ → Option (List ℕ)
regroup [] = some []
regroup (a ∷ []) = none
regroup (a ∷ b ∷ []) = some ((a * 4 + b / 16) ∷ [])
regroup (a ∷ b ∷ c ∷ []) = some ((a * 4 + b / 16) ∷ (b % 16 * 16 + c / 4) ∷ [])
regroup (a ∷ b ∷ c ∷ d ∷ vs) = elim (regroup vs) [
  | none ↦ none
  | some bs ↦ some ((a * 4 + b / 16) ∷ (b % 16 * 16 + c / 4) ∷ (c % 4 * 64 + d) ∷ bs)
]

-- base64.RawStdEncoding.DecodeString
unfoldable pub raw_decode : Text → Option (List ℕ)
unfolding values regroup
raw_decode s = elim (values s) [ none ↦ none | some vs ↦ regroup vs ]

-- The decimal digits of a number, at least `width` of them: `%0*d`; the fuel bounds the digits.
unfoldable pub digits : ℕ → ℕ → Text
digits zero n = []
digits (suc w) n = digits w (n / 10) ++ (b'0' + n % 10) ∷ []

-- `%d` for a number below 2^64
unfoldable pub decimal_from : ℕ → ℕ → Text
decimal_from zero n = []
decimal_from (suc f) n =
    let rest = decimal_from f (n / 10) in
    if ltb n 10 then (b'0' + n) ∷ [] else rest ++ (b'0' + n % 10) ∷ []

unfoldable pub decimal : ℕ → Text
unfolding decimal_from
decimal n = decimal_from 20 n
