-- ===== src/Strings.antt =====
-- What the service uses of Go's `strings` and `net`: texts are bytes.
pub mod Split
pub mod Trim
pub mod Ascii
use mathlib.Core.List.{reverse}
use auth_service.Prelude.{
  ℕ, zero, suc, ◌+◌, Text, Option, none, some, List, [], ◌∷◌, ◌++◌, map, eqb, length, if◌then◌else◌,
}

-- strings.Split(s, sep) for a separator of one byte: the pieces, of which there is at least one
unfoldable pub split : ℕ → Text → List Text
split sep [] = [] ∷ []
split sep (c ∷ s) =
    let rest = split sep s in
    if eqb c sep then [] ∷ rest else elim rest [ [] ↦ (c ∷ []) ∷ [] | p ∷ ps ↦ (c ∷ p) ∷ ps ]

-- strings.CutPrefix(s, prefix): the rest, absent where `s` does not begin so
unfoldable pub cut_prefix : Text → Text → Option Text
cut_prefix s [] = some s
cut_prefix [] (p ∷ ps) = none
cut_prefix (c ∷ s) (p ∷ ps) = let rest = cut_prefix s ps in if eqb c p then rest else none

-- strings.IndexByte(s, c)
unfoldable pub index_byte : ℕ → Text → Option ℕ
index_byte c [] = none
index_byte c (x ∷ s) =
    let rest = index_byte c s in
    if eqb x c then some 0 else elim rest [ none ↦ none | some i ↦ some (i + 1) ]

-- strings.LastIndex(s, c) for one byte, cut there: the text before it and the text behind it
unfoldable pub cut_last : ℕ → Text → Option (Text × Text)
cut_last c [] = none
cut_last c (x ∷ s) = elim (cut_last c s) [
  | some (before, behind) ↦ some (x ∷ before, behind)
  | none ↦ if eqb x c then some ([], s) else none
]

-- The encodings of the white space of `unicode.IsSpace` but for the newline.
abbrev pub blanks : List Text
blanks =
    (9 ∷ [])
    ∷ (11 ∷ [])
    ∷ (12 ∷ [])
    ∷ (13 ∷ [])
    ∷ (32 ∷ [])
    ∷ (194 ∷ 133 ∷ [])
    ∷ (194 ∷ 160 ∷ [])
    ∷ (225 ∷ 154 ∷ 128 ∷ [])
    ∷ (226 ∷ 128 ∷ 128 ∷ [])
    ∷ (226 ∷ 128 ∷ 129 ∷ [])
    ∷ (226 ∷ 128 ∷ 130 ∷ [])
    ∷ (226 ∷ 128 ∷ 131 ∷ [])
    ∷ (226 ∷ 128 ∷ 132 ∷ [])
    ∷ (226 ∷ 128 ∷ 133 ∷ [])
    ∷ (226 ∷ 128 ∷ 134 ∷ [])
    ∷ (226 ∷ 128 ∷ 135 ∷ [])
    ∷ (226 ∷ 128 ∷ 136 ∷ [])
    ∷ (226 ∷ 128 ∷ 137 ∷ [])
    ∷ (226 ∷ 128 ∷ 138 ∷ [])
    ∷ (226 ∷ 128 ∷ 168 ∷ [])
    ∷ (226 ∷ 128 ∷ 169 ∷ [])
    ∷ (226 ∷ 128 ∷ 175 ∷ [])
    ∷ (226 ∷ 129 ∷ 159 ∷ [])
    ∷ (227 ∷ 128 ∷ 128 ∷ [])
    ∷ []

-- The encodings of the white space of `unicode.IsSpace`.
abbrev pub spaces : List Text
spaces = (10 ∷ []) ∷ blanks

-- The text behind the first of the given prefixes that it has.
unfoldable pub cut_any : List Text → Text → Option Text
unfolding cut_prefix
cut_any [] s = none
cut_any (p ∷ ps) s =
    let rest = cut_any ps s in elim (cut_prefix s p) [ none ↦ rest | some r ↦ some r ]

-- Cuts such prefixes as long as there is one; the fuel is the length, and each cut shortens.
unfoldable pub cut_all : List Text → ℕ → Text → Text
unfolding cut_any
cut_all ps zero s = s
cut_all ps (suc n) s = elim (cut_any ps s) [ none ↦ s | some r ↦ cut_all ps n r ]

-- strings.TrimSpace
unfoldable pub trim_space : Text → Text
unfolding cut_all
trim_space s =
    let left = cut_all spaces (length s) s in
    reverse (cut_all (map reverse spaces) (length left) (reverse left))

-- The same for the first occurrence.
unfoldable pub cut_before : ℕ → Text → Option (Text × Text)
cut_before c [] = none
cut_before c (x ∷ s) =
    let rest = cut_before c s in
    if eqb x c then some ([], s) else elim rest [ none ↦ none | some (a, b) ↦ some (x ∷ a, b) ]

-- The host of a `host:port` that has brackets: `[host]:port`, with no bracket in the rest.
unfoldable pub bracketed_host : Text → Option Text
unfolding cut_before index_byte
bracketed_host inner = elim (cut_before b']' inner) [
  | none ↦ none
  | some (host, []) ↦ none
  | some (host, c ∷ port) ↦
      if eqb c b':'
      then elim (index_byte b':' port) [
        | some i ↦ none
        | none ↦ elim (index_byte b'[' (host ++ port)) [
          | some i ↦ none
          | none ↦ elim (index_byte b']' port) [ some i ↦ none | none ↦ some host ]
        ]
      ]
      else none
]

-- net.SplitHostPort, of which the service takes the host
unfoldable pub split_host_port : Text → Option Text
unfolding bracketed_host cut_last index_byte
split_host_port [] = none
split_host_port (c ∷ s) = if eqb c b'[' then bracketed_host s else elim (cut_last b':' (c ∷ s)) [
  | none ↦ none
  | some (host, port) ↦ elim (index_byte b':' host) [
    | some i ↦ none
    | none ↦ elim (index_byte b'[' (c ∷ s)) [
      | some i ↦ none
      | none ↦ elim (index_byte b']' (c ∷ s)) [ some i ↦ none | none ↦ some host ]
    ]
  ]
]

-- The pieces from the right, trimmed: the first that is not empty.
unfoldable pub rightmost : List Text → Option Text
unfolding trim_space
rightmost [] = none
rightmost (p ∷ ps) = elim (rightmost ps) [
  | some ip ↦ some ip
  | none ↦ elim (trim_space p) [ [] ↦ none | c ∷ ip ↦ some (c ∷ ip) ]
]
