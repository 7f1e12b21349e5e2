-- ===== src/Token/Code.antt =====
-- internal/lib/otp/otp.go: the form of a code.
use auth_service.Prelude.{
  ℕ, zero, suc, ◌+◌, ◌*◌, ◌-◌, ◌%◌, ◌/◌, ◌<◌, ◌≤◌, ◌≡◌, subst, Text, some, List, [], ◌∷◌, ◌++◌,
  length, arith,
}
use auth_service.Models.{Stamp}
use auth_service.Ports.{ok}
use auth_service.Encoding.{digits}
use auth_service.Token.{uint32, generate_otp}

-- A text of decimal digits alone.
abbrev pub AllDigits : Text → Type 0
AllDigits [] = Unit {0}
AllDigits (c ∷ s) = (b'0' ≤ c) × (c ≤ b'9') × AllDigits s

-- The number that a text of digits stands for, after the digits of another.
unfoldable pub value_from : ℕ → Text → ℕ
value_from acc [] = acc
value_from acc (c ∷ s) = value_from (acc * 10 + (c - b'0')) s

unfoldable power : ℕ → ℕ
power zero = 1
power (suc w) = power w * 10

AllDigits-snoc : (s : Text) (d : ℕ) → AllDigits s → d < 10 → AllDigits (s ++ (b'0' + d) ∷ [])
AllDigits-snoc [] d h b = (omega arith, omega arith, tt)
AllDigits-snoc (c ∷ s) d (l, u, h) b = (l, u, AllDigits-snoc s d h b)

length-snoc : (s : Text) (d : ℕ) → length (s ++ d ∷ []) ≡ suc (length s)
length-snoc [] d = ground arith
length-snoc (c ∷ s) d = ground (arith, length-snoc s d)

value_from-snoc :
    (acc : ℕ) (s : Text) (d : ℕ) → value_from acc (s ++ (b'0' + d) ∷ []) ≡ value_from acc s * 10 + d
unfolding value_from
value_from-snoc acc [] d = ground arith
value_from-snoc acc (c ∷ s) d = value_from-snoc (acc * 10 + (c - b'0')) s d

digits-AllDigits : (w n : ℕ) → AllDigits (digits w n)
unfolding digits
digits-AllDigits zero n = tt
digits-AllDigits (suc w) n =
    AllDigits-snoc (digits w (n / 10)) (n % 10) (digits-AllDigits w (n / 10)) (omega arith)

length-digits : (w n : ℕ) → length (digits w n) ≡ w
unfolding digits
length-digits zero n = ground arith
length-digits (suc w) n =
    ground (arith, length-snoc (digits w (n / 10)) (b'0' + n % 10), length-digits w (n / 10))

value_from-digits : (w n : ℕ) → n < power w → value_from 0 (digits w n) ≡ n
unfolding digits power value_from
value_from-digits zero n b = ground arith
value_from-digits (suc w) n b =
    let rest = value_from-digits w (n / 10) (omega arith) in
    ground (arith, value_from-snoc 0 (digits w (n / 10)) (n % 10), rest)

-- A code that otp.Generate returns is six decimal digits, and they stand for the four random bytes
-- as a big-endian number, modulo a million.
pub generate_otp_digits :
    (t : Stamp) (b : List ℕ) (code : Text)
    → t.entropy 4 ≡ some b
    → generate_otp t ≡ ok code
    → (length code ≡ 6) × AllDigits code × (value_from 0 code ≡ uint32 b % 1000000)
unfolding generate_otp power
generate_otp_digits t b code e g =
    let n = uint32 b % 1000000 in
    let same : digits 6 n ≡ code = ground arith in
    subst (λ s. (length s ≡ 6) × AllDigits s × (value_from 0 s ≡ n)) same
      (length-digits 6 n, digits-AllDigits 6 n, value_from-digits 6 n (omega arith))
