-- ===== src/Token.antt =====
-- internal/lib/token/token.go and internal/lib/otp/otp.go. SHA-256 is the parameter `sha256`.
pub mod Code
pub mod Tests
use auth_service.Prelude.{ℕ, ◌+◌, ◌*◌, ◌%◌, Text, none, some, List, ◌∷◌, bytes}
use auth_service.Models.{Stamp}
use auth_service.Ports.{Error, other, Result, ok, err}
use auth_service.Encoding.{hex, encode, url_encode, digits}

module _ (sha256 : List ℕ → List ℕ) where
  -- token.Hash
  unfoldable pub hash : Text → Text
  unfolding hex
  hash plain = hex (sha256 plain)

  -- token.Generate: the token for the client and the hash that is stored
  unfoldable pub generate : Stamp → Result Error (Text × Text)
  unfolding encode hex
  generate t = elim (t.entropy 32) [
    | none ↦ err (other (bytes "generate random bytes"))
    | some b ↦ let plain = url_encode b in ok (plain, hex (sha256 plain))
  ]

-- binary.BigEndian.Uint32
unfoldable pub uint32 : List ℕ → ℕ
uint32 (a ∷ b ∷ c ∷ d ∷ _) = (a * 256 + b) * 65536 + (c * 256 + d)
uint32 _ = 0

-- otp.Generate
unfoldable pub generate_otp : Stamp → Result Error Text
unfolding uint32 digits
generate_otp t = elim (t.entropy 4) [
  | none ↦ err (other (bytes "generate otp"))
  | some b ↦ ok (digits 6 (uint32 b % 1000000))
]
