-- ===== src/Strings/Ascii.antt =====
-- Texts that every encoding of this program's libraries keeps byte by byte.
use auth_service.Prelude.{◌<◌, Text, List, [], ◌∷◌}

-- A text of ASCII.
abbrev pub IsAscii : Text → Type 0
IsAscii [] = Unit {0}
IsAscii (c ∷ s) = (c < 128) × IsAscii s

abbrev pub AllAscii : List Text → Type 0
AllAscii [] = Unit {0}
AllAscii (s ∷ ss) = IsAscii s × AllAscii ss
