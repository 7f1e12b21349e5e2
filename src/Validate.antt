-- ===== src/Validate.antt =====
-- internal/lib/validate/validate.go, with what it uses of Go's `regexp` and of the decoding of
-- UTF-8 by `range`. The tables `unicode.IsLetter` and `unicode.IsDigit` are parameters.
pub mod Matching
pub mod Email
pub mod Tests
use auth_service.Prelude.{
  ℕ, zero, suc, ◌+◌, ◌-◌, ◌*◌, Text, String, List, [], ◌∷◌, ltb, leb, eqb, length, ◌&&◌, ◌||◌,
  if◌then◌else◌, Bool, true, false,
}
use auth_service.Ports.{Result, ok, err}

-- The regular expressions that the pattern is made of.
pub data Regex : Type 0 where
  nothing empty : Regex
  class : (ℕ → Bool) → Regex
  seq alt : Regex → Regex → Regex
  star : Regex → Regex

-- r+
abbrev pub plus : Regex → Regex
plus r = seq r (star r)

unfoldable pub nullable : Regex → Bool
nullable nothing = false
nullable empty = true
nullable (class p) = false
nullable (seq r s) = nullable r && nullable s
nullable (alt r s) = nullable r || nullable s
nullable (star r) = true

-- What has to follow once the character is read.
unfoldable pub derivative : ℕ → Regex → Regex
unfolding nullable
derivative c nothing = nothing
derivative c empty = nothing
derivative c (class p) = if p c then empty else nothing
derivative c (seq r s) =
    let first = seq (derivative c r) s in
    let second = derivative c s in if nullable r then alt first second else first
derivative c (alt r s) = alt (derivative c r) (derivative c s)
derivative c (star r) = seq (derivative c r) (star r)

-- Whether the whole text matches: a pattern between `^` and `$`.
unfoldable pub matches : Regex → Text → Bool
unfolding derivative
matches r [] = nullable r
matches r (c ∷ s) = matches (derivative c r) s

abbrev pub is_ascii_letter : ℕ → Bool
is_ascii_letter c = (leb b'a' c && leb c b'z') || (leb b'A' c && leb c b'Z')

abbrev pub is_ascii_digit : ℕ → Bool
is_ascii_digit c = leb b'0' c && leb c b'9'

-- [a-zA-Z0-9._%+\-]
abbrev pub local_char : ℕ → Bool
local_char c =
    is_ascii_letter c
    || is_ascii_digit c
    || eqb c b'.'
    || eqb c b'_'
    || eqb c b'%'
    || eqb c b'+'
    || eqb c b'-'

-- [a-zA-Z0-9.\-]
abbrev pub domain_char : ℕ → Bool
domain_char c = is_ascii_letter c || is_ascii_digit c || eqb c b'.' || eqb c b'-'

-- emailRe; it matches ASCII alone, so that characters are bytes
abbrev pub email_re : Regex
email_re = seq (plus (class local_char)) (
    seq (class (λ c. eqb c b'@')) (
      seq (plus (class domain_char)) (
        seq (class (λ c. eqb c b'.'))
          (seq (class is_ascii_letter) (plus (class is_ascii_letter))))))

-- validate.Email; an error is its text
unfoldable pub check_email : Text → Result String (Unit {0})
unfolding matches
check_email [] = err "email is required"
check_email (c ∷ s) = if matches email_re (c ∷ s) then ok tt else err "invalid email format"

abbrev is_cont : ℕ → Bool
is_cont c = leb 128 c && leb c 191

-- The code point that a byte sequence of UTF-8 of the given length stands for, where it is valid.
abbrev two : ℕ → ℕ → Bool
two a b = leb 194 a && leb a 223 && is_cont b

abbrev three : ℕ → ℕ → ℕ → Bool
three a b c =
    ((eqb a 224 && leb 160 b && leb b 191)
      || (leb 225 a && leb a 236 && is_cont b)
      || (eqb a 237 && leb 128 b && leb b 159)
      || (leb 238 a && leb a 239 && is_cont b))
    && is_cont c

abbrev four : ℕ → ℕ → ℕ → ℕ → Bool
four a b c d =
    ((eqb a 240 && leb 144 b && leb b 191)
      || (leb 241 a && leb a 243 && is_cont b)
      || (eqb a 244 && leb 128 b && leb b 143))
    && is_cont c
    && is_cont d

-- utf8.RuneError
abbrev pub rune_error : ℕ
rune_error = 65533

-- The first rune of a text that is not empty, and the number of bytes after its first.
unfoldable pub decode_rune : ℕ → Text → ℕ × ℕ
decode_rune a (b ∷ c ∷ d ∷ _) =
    if ltb a 128
    then (a, 0)
    else if two a b
    then ((a - 192) * 64 + (b - 128), 1)
    else if three a b c
    then ((a - 224) * 4096 + ((b - 128) * 64 + (c - 128)), 2)
    else if four a b c d
    then ((a - 240) * 262144 + ((b - 128) * 4096 + ((c - 128) * 64 + (d - 128))), 3)
    else (rune_error, 0)
decode_rune a (b ∷ c ∷ []) =
    if ltb a 128
    then (a, 0)
    else if two a b
    then ((a - 192) * 64 + (b - 128), 1)
    else if three a b c
    then ((a - 224) * 4096 + ((b - 128) * 64 + (c - 128)), 2)
    else (rune_error, 0)
decode_rune a (b ∷ []) =
    if ltb a 128
    then (a, 0)
    else if two a b
    then ((a - 192) * 64 + (b - 128), 1)
    else (rune_error, 0)
decode_rune a [] = if ltb a 128 then (a, 0) else (rune_error, 0)

-- The runes of a text, in the order of `range`; `skip` bytes of a rune already read come first.
unfoldable pub runes : ℕ → Text → List ℕ
unfolding decode_rune
runes skip [] = []
runes zero (a ∷ s) = let r = decode_rune a s in r.0 ∷ runes r.1 s
runes (suc skip) (a ∷ s) = runes skip s

module _ (is_letter is_digit : ℕ → Bool) where
  -- The loop of validate.Password with its two flags; it stops once both are set.
  unfoldable pub scan : Bool → Bool → List ℕ → Bool × Bool
  scan has_letter has_digit [] = (has_letter, has_digit)
  scan has_letter has_digit (r ∷ rs) =
      let letter = if is_letter r then true else has_letter in
      let digit = if is_letter r then has_digit else if is_digit r then true else has_digit in
      let rest = scan letter digit rs in if letter && digit then (letter, digit) else rest

  -- validate.Password
  unfoldable pub check_password : Text → Result String (Unit {0})
  unfolding scan runes
  check_password pwd =
      let flags = scan false false (runes 0 pwd) in
      if ltb (length pwd) 8
      then err "password must be at least 8 characters"
      else if flags.0
      then (if flags.1 then ok tt else err "password must contain at least one digit")
      else err "password must contain at least one letter"
