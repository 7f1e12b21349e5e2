-- ===== src/Password.antt =====
-- internal/lib/password/password.go. `argon2.IDKey` is the parameter `id_key`, of the password,
-- the salt, the passes, the memory, the threads and the length of the key.
pub mod RoundTrip
pub mod Tests
use auth_service.Prelude.{
  ℕ, ◌+◌, ◌-◌, ◌*◌, ◌^◌, Text, Option, none, some, List, [], ◌∷◌, ◌++◌, bytes, ltb, leb, eqb,
  length, ◌&&◌, ◌==◌, if◌then◌else◌, Bool,
}
use auth_service.Models.{Stamp}
use auth_service.Ports.{Error, other, Result, ok, err}
use auth_service.Strings.{split, cut_prefix, cut_all, blanks}
use auth_service.Encoding.{encode, raw_encode, raw_decode, decimal}

abbrev pub memory : ℕ
memory = 65536

abbrev pub iterations : ℕ
iterations = 3

abbrev pub parallelism : ℕ
parallelism = 4

abbrev pub salt_len : ℕ
salt_len = 16

abbrev pub key_len : ℕ
key_len = 32

-- argon2.Version
abbrev pub version : ℕ
version = 19

-- The digits at the front of a text, as a number, and the rest: `%d` of fmt.Sscanf
unfoldable pub scan_digits : ℕ → Text → ℕ × Text
scan_digits n [] = (n, [])
scan_digits n (c ∷ s) =
    let rest = scan_digits (n * 10 + (c - b'0')) s in
    if leb b'0' c && leb c b'9' then rest else (n, c ∷ s)

-- What fmt.Sscanf skips before `%d`: white space, but no newline, at which it fails as it does at
-- any text that is no digit.
unfoldable pub skip_spaces : Text → Text
unfolding cut_all
skip_spaces s = cut_all blanks (length s) s

abbrev bounded : ℕ → ℕ × Text → Option (ℕ × Text)
bounded bound (n, rest) = if ltb n bound then some (n, rest) else none

-- `literal` and then `%d` into an unsigned integer below `bound`
unfoldable pub scan_field : Text → ℕ → Text → Option (ℕ × Text)
unfolding cut_prefix scan_digits skip_spaces
scan_field literal bound s = elim (cut_prefix s literal) [
  | none ↦ none
  | some r ↦ elim (skip_spaces r) [
    | [] ↦ none
    | c ∷ r' ↦ if leb b'0' c && leb c b'9' then bounded bound (scan_digits 0 (c ∷ r')) else none
  ]
]

-- fmt.Sscanf(s, "m=%d,t=%d,p=%d", …) into a uint32, a uint32 and a uint8
unfoldable pub scan_params : Text → Option (ℕ × ℕ × ℕ)
unfolding scan_field
scan_params s = elim (scan_field (bytes "m=") (2 ^ 32) s) [
  | none ↦ none
  | some (m, s₁) ↦ elim (scan_field (bytes ",t=") (2 ^ 32) s₁) [
    | none ↦ none
    | some (t, s₂) ↦ elim (scan_field (bytes ",p=") 256 s₂) [
      | none ↦ none
      | some (p, s₃) ↦ some (m, t, p)
    ]
  ]
]

module _ (id_key : Text → List ℕ → ℕ → ℕ → ℕ → ℕ → List ℕ) where
  -- password.Hash
  unfoldable pub hash : Stamp → Text → Result Error Text
  unfolding encode decimal
  hash t plaintext = elim (t.entropy salt_len) [
    | none ↦ err (other (bytes "generate salt"))
    | some salt ↦
        let key = id_key plaintext salt iterations memory parallelism key_len in
        ok (
          bytes "$argon2id$v="
          ++ (decimal version
              ++ (bytes "$m="
                  ++ (decimal memory
                      ++ (bytes ",t="
                          ++ (decimal iterations
                              ++ (bytes ",p="
                                  ++ (decimal parallelism
                                      ++ (bytes "$"
                                          ++ (raw_encode salt
                                              ++ (bytes "$" ++ raw_encode key)))))))))))
  ]

  -- The four steps of password.Verify on the fields of an encoded hash.
  unfoldable pub verify_fields : Text → Text → Text → Text → Result Error Bool
  unfolding scan_params raw_decode
  verify_fields plaintext params salt stored = elim (scan_params params) [
    | none ↦ err (other (bytes "parse hash params"))
    | some (m, i, p) ↦ elim (raw_decode salt) [
      | none ↦ err (other (bytes "decode salt"))
      | some salt' ↦ elim (raw_decode stored) [
        | none ↦ err (other (bytes "decode hash"))
        | some key ↦ ok (id_key plaintext salt' i m p (length key) == key)
      ]
    ]
  ]

  -- The fields between the dollars: there have to be six.
  abbrev check_fields : Text → List Text → Result Error Bool
  check_fields plaintext (a ∷ b ∷ c ∷ params ∷ salt ∷ stored ∷ []) =
      verify_fields plaintext params salt stored
  check_fields plaintext _ = err (other (bytes "invalid hash format"))

  -- password.Verify
  unfoldable pub verify : Text → Text → Result Error Bool
  unfolding verify_fields split
  verify plaintext encoded = check_fields plaintext (split b'$' encoded)
