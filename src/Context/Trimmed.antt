-- ===== src/Context/Trimmed.antt =====
-- extractIP and extractClientInfo: the form of an address that X-Forwarded-For gives.
use mathlib.Core.List.{reverse}
use auth_service.Prelude.{
  ℕ, ◌≡◌, ◌≢◌, refl, sym, ◌∙◌, ap, subst, inl, inr, Text, Option, none, some, List, [], ◌∷◌, ◌++◌,
  map, eqb, arith, false, Bool-cases, Option-cases,
}
use auth_service.Strings.{split, rightmost, trim_space, index_byte, cut_any, spaces}
use auth_service.Strings.Trim.{trim_space_trims}
use auth_service.Context.{forwarded}

index-append :
    (c : ℕ) (a b : Text)
    → index_byte c (a ++ b) ≡ none
    → (index_byte c a ≡ none) × (index_byte c b ≡ none)
unfolding index_byte
index-append c [] b e = (refl, e)
index-append c (x ∷ a) b e = elim (Bool-cases (eqb x c)) [
  | inl m ↦ absurd (ground arith)
  | inr m ↦ elim (Option-cases (index_byte c (a ++ b))) [
    | inl n ↦ let (l, r) = index-append c a b n in (ground (arith, m, l), r)
    | inr (i, n) ↦ absurd (ground arith)
  ]
]

-- No piece has a separator.
abbrev AllWithout : ℕ → List Text → Type 0
AllWithout c [] = Unit {0}
AllWithout c (p ∷ ps) = (index_byte c p ≡ none) × AllWithout c ps

split-AllWithout : (c : ℕ) (s : Text) → AllWithout c (split c s)
unfolding split index_byte
split-AllWithout c [] = (refl, tt)
split-AllWithout c (x ∷ s) = elim (Bool-cases (eqb x c)) [
  | inl m ↦ rw (split, m) (refl, split-AllWithout c s)
  | inr m ↦ rw (split, m) (joined (split c s) (split-AllWithout c s) m)
]
  where
    joined :
        (ps : List Text)
        → AllWithout c ps
        → eqb x c ≡ false
        → AllWithout c (elim ps [ [] ↦ (x ∷ []) ∷ [] | p ∷ ps ↦ (x ∷ p) ∷ ps ])
    joined [] h m = (rw (index_byte, m) refl, tt)
    joined (p ∷ ps) (h, hs) m = (rw (index_byte, m, h) refl, hs)

-- The rightmost address is one of the pieces, trimmed.
rightmost-piece :
    (c : ℕ) (ps : List Text) (ip : Text)
    → AllWithout c ps
    → rightmost ps ≡ some ip
    → (ip ≢ []) × ((p : Text) × (index_byte c p ≡ none) × (trim_space p ≡ ip))
unfolding rightmost
rightmost-piece c [] ip h e = absurd (cc)
rightmost-piece c (p ∷ ps) ip (h, hs) e = elim (Option-cases (rightmost ps)) [
  | inl n ↦
      last (trim_space p) refl
        (subst (λ o. elim o [ some ip ↦ some ip | none ↦ kept (trim_space p) ] ≡ some ip) n e)
  | inr (q, n) ↦
      rightmost-piece c ps ip hs
        (n ∙ subst (λ o. elim o [ some ip ↦ some ip | none ↦ kept (trim_space p) ] ≡ some ip) n e)
]
  where
    kept : Text → Option Text
    kept w = elim w [ [] ↦ none | c ∷ ip ↦ some (c ∷ ip) ]

    last :
        (w : Text)
        → trim_space p ≡ w
        → kept w ≡ some ip
        → (ip ≢ []) × ((p : Text) × (index_byte c p ≡ none) × (trim_space p ≡ ip))
    last [] t e = absurd (cc)
    last (x ∷ w) t e = (λ z. cc, (p, h, t ∙ cc))

-- An address that X-Forwarded-For gives is not empty, has no comma, and neither begins nor ends with
-- the encoding of a white space.
pub forwarded_clean :
    (header ip : Text)
    → forwarded (some header) ≡ some ip
    → (ip ≢ [])
      × (index_byte b',' ip ≡ none)
      × (cut_any spaces ip ≡ none)
      × (cut_any (map reverse spaces) (reverse ip) ≡ none)
unfolding forwarded
forwarded_clean header ip e =
    let (n, (p, without, t)) =
      rightmost-piece b',' (split b',' header) ip (split-AllWithout b',' header) e in
    let (start, end, (a, c, (_, _, same))) = trim_space_trims p in
    let inner =
      (index-append b',' (trim_space p) c
        ((index-append b',' a _ (ap (index_byte b',') (sym same) ∙ without)).1)).0 in
    subst Clean t (rest n t, inner, start, end)
  where
    rest : {w : Text} → ip ≢ [] → w ≡ ip → w ≢ []
    rest n t z = n (sym t ∙ z)

    Clean : Text → Type 0
    Clean w =
        (w ≢ [])
        × (index_byte b',' w ≡ none)
        × (cut_any spaces w ≡ none)
        × (cut_any (map reverse spaces) (reverse w) ≡ none)
