-- ===== src/Token/Tests.antt =====
-- A code from four bytes.
use auth_service.Prelude.{◌≡◌, ◌%◌, refl, Text, some, [], ◌∷◌, bytes, length}
use auth_service.Models.{Stamp}
use auth_service.Ports.{ok}
use auth_service.Encoding.{digits}
use auth_service.Token.{uint32, generate_otp}
use auth_service.Token.Code.{AllDigits, value_from, generate_otp_digits}

abbrev stamp : Stamp
stamp = record { now = 5; later = 6; uuid = []; entropy = λ n. some (255 ∷ 255 ∷ 15 ∷ 3 ∷ []) }

abbrev code : Text
code = bytes "905603"

code_generated : generate_otp stamp ≡ ok code
unfolding generate_otp uint32 digits
code_generated = refl

generate_otp_digits_example :
    (length code ≡ 6)
    × AllDigits code
    × (value_from 0 code ≡ uint32 (255 ∷ 255 ∷ 15 ∷ 3 ∷ []) % 1000000)
generate_otp_digits_example =
    generate_otp_digits stamp (255 ∷ 255 ∷ 15 ∷ 3 ∷ []) code refl code_generated
