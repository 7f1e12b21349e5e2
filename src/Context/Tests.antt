-- ===== src/Context/Tests.antt =====
-- The theorem on X-Forwarded-For, applied to a forged header.
use mathlib.Core.List.{reverse}
use auth_service.Prelude.{◌≡◌, ◌≢◌, map, [], refl, none, some, ◌∷◌, ◌++◌, bytes}
use auth_service.Strings.{
  spaces, split, rightmost, cut_prefix, cut_any, cut_all, trim_space, index_byte,
}
use auth_service.Prelude.Lists.{◌==◌}
use auth_service.Prelude.Maps.{Map, lookup}
use auth_service.Prelude.{List, Text}
use auth_service.Context.{Context, first, get, forwarded, extract_ip, extract_client_info}
use auth_service.Context.Trimmed.{forwarded_clean}
use auth_service.Context.Spoofing.{extract_ip_appended}

no_comma : index_byte b',' (bytes " 1.2.3.4") ≡ none
unfolding index_byte
no_comma = refl

trimmed : trim_space (bytes " 1.2.3.4") ≡ bytes "1.2.3.4"
unfolding trim_space cut_all cut_any cut_prefix
trimmed = refl

-- A forged header, the peer's own address and X-Real-IP beside it.
abbrev metadata : Map (List Text)
metadata =
    (bytes "x-real-ip", bytes "9.9.9.9" ∷ [])
    ∷ (bytes "x-forwarded-for", (bytes "127.0.0.1" ++ b',' ∷ bytes " 1.2.3.4") ∷ [])
    ∷ []

abbrev context : Context
context = record { metadata = some metadata; peer = some (bytes "10.0.0.1:80") }

header :
    first (get (bytes "x-forwarded-for") metadata)
    ≡ some (bytes "127.0.0.1" ++ b',' ∷ bytes " 1.2.3.4")
unfolding get lookup ◌==◌
header = refl

extract_ip_appended_example :
    (extract_ip context ≡ bytes "1.2.3.4") × ((extract_client_info context).0 ≡ bytes "1.2.3.4")
extract_ip_appended_example =
    extract_ip_appended context metadata (bytes "127.0.0.1") (bytes " 1.2.3.4") b'1'
      (bytes ".2.3.4") refl header no_comma trimmed

clean_taken : forwarded (some (bytes "9.9.9.9,  1.2.3.4 , ,")) ≡ some (bytes "1.2.3.4")
unfolding forwarded split rightmost trim_space cut_all cut_any cut_prefix
clean_taken = refl

forwarded_clean_example :
    (bytes "1.2.3.4" ≢ [])
    × (index_byte b',' (bytes "1.2.3.4") ≡ none)
    × (cut_any spaces (bytes "1.2.3.4") ≡ none)
    × (cut_any (map reverse spaces) (reverse (bytes "1.2.3.4")) ≡ none)
forwarded_clean_example =
    forwarded_clean (bytes "9.9.9.9,  1.2.3.4 , ,") (bytes "1.2.3.4") clean_taken
