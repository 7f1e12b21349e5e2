-- ===== src/Encoding/Base64.antt =====
-- encoding/base64: what RawStdEncoding encodes it decodes, and no dollar is among its characters.
use auth_service.Prelude.{
  ℕ, ◌+◌, ◌/◌, ◌%◌, ◌*◌, ◌<◌, ◌≡◌, refl, Text, none, some, List, [], ◌∷◌, eqb, false, arith,
}
use auth_service.Strings.{index_byte}
use auth_service.Encoding.{
  base64_digit, base64_value, encode, raw_encode, values, regroup, raw_decode,
}

abbrev pub AllBytes : List ℕ → Type 0
AllBytes [] = Unit {0}
AllBytes (b ∷ bs) = (b < 256) × AllBytes bs

-- The digit of RawStdEncoding.
abbrev digit : ℕ → ℕ
digit = base64_digit b'+' b'/'

value-digit : (n : ℕ) → n < 64 → base64_value b'+' b'/' (digit n) ≡ some n
unfolding base64_value base64_digit
value-digit n h = ground arith

digit-line_end :
    (n : ℕ)
    → n < 64
    → (eqb (digit n) 10 ≡ false) × (eqb (digit n) 13 ≡ false) × (eqb (digit n) b'$' ≡ false)
unfolding base64_digit
digit-line_end n h = ground arith

values-nil : values [] ≡ some []
unfolding values
values-nil = refl

index-nil : index_byte b'$' [] ≡ none
unfolding index_byte
index-nil = refl

-- One more character.
values-digit :
    (n : ℕ) (s : Text) (vs : List ℕ)
    → n < 64
    → values s ≡ some vs
    → values (digit n ∷ s) ≡ some (n ∷ vs)
unfolding values
values-digit n s vs h e = ground (arith, value-digit n h, digit-line_end n h)

index-digit :
    (n : ℕ) (s : Text) → n < 64 → index_byte b'$' s ≡ none → index_byte b'$' (digit n ∷ s) ≡ none
unfolding index_byte
index-digit n s h e = ground (arith, digit-line_end n h)

-- The values of an encoding.
unfoldable sextets : List ℕ → List ℕ
sextets [] = []
sextets (a ∷ []) = (a / 4) ∷ (a % 4 * 16) ∷ []
sextets (a ∷ b ∷ []) = (a / 4) ∷ (a % 4 * 16 + b / 16) ∷ (b % 16 * 4) ∷ []
sextets (a ∷ b ∷ c ∷ bs) =
    (a / 4) ∷ (a % 4 * 16 + b / 16) ∷ (b % 16 * 4 + c / 64) ∷ (c % 64) ∷ sextets bs

values-encode : (bs : List ℕ) → AllBytes bs → values (raw_encode bs) ≡ some (sextets bs)
unfolding encode sextets
values-encode [] h = values-nil
values-encode (a ∷ []) (p, _) =
    values-digit (a / 4) _ _ (omega arith) (values-digit (a % 4 * 16) _ _ (omega arith) values-nil)
values-encode (a ∷ b ∷ []) (p, (q, _)) = values-digit (a / 4) _ _ (omega arith) (
    values-digit (a % 4 * 16 + b / 16) _ _ (omega arith)
      (values-digit (b % 16 * 4) _ _ (omega arith) values-nil))
values-encode (a ∷ b ∷ c ∷ bs) (p, (q, (r, h))) = values-digit (a / 4) _ _ (omega arith) (
    values-digit (a % 4 * 16 + b / 16) _ _ (omega arith) (
      values-digit (b % 16 * 4 + c / 64) _ _ (omega arith)
        (values-digit (c % 64) _ _ (omega arith) (values-encode bs h))))

regroup-sextets : (bs : List ℕ) → AllBytes bs → regroup (sextets bs) ≡ some bs
unfolding regroup sextets
regroup-sextets [] h = refl
regroup-sextets (a ∷ []) (p, _) = ground arith
regroup-sextets (a ∷ b ∷ []) (p, (q, _)) = ground arith
regroup-sextets (a ∷ b ∷ c ∷ bs) (p, (q, (r, h))) = ground (arith, regroup-sextets bs h)

-- What was encoded is decoded to the same bytes.
pub raw_decode-encode : (bs : List ℕ) → AllBytes bs → raw_decode (raw_encode bs) ≡ some bs
unfolding raw_decode
raw_decode-encode bs h = rw (raw_decode, values-encode bs h) (regroup-sextets bs h)

pub index-encode : (bs : List ℕ) → AllBytes bs → index_byte b'$' (raw_encode bs) ≡ none
unfolding encode
index-encode [] h = index-nil
index-encode (a ∷ []) (p, _) =
    index-digit (a / 4) _ (omega arith) (index-digit (a % 4 * 16) _ (omega arith) index-nil)
index-encode (a ∷ b ∷ []) (p, (q, _)) = index-digit (a / 4) _ (omega arith) (
    index-digit (a % 4 * 16 + b / 16) _ (omega arith)
      (index-digit (b % 16 * 4) _ (omega arith) index-nil))
index-encode (a ∷ b ∷ c ∷ bs) (p, (q, (r, h))) = index-digit (a / 4) _ (omega arith) (
    index-digit (a % 4 * 16 + b / 16) _ (omega arith) (
      index-digit (b % 16 * 4 + c / 64) _ (omega arith)
        (index-digit (c % 64) _ (omega arith) (index-encode bs h))))
