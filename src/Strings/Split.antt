-- ===== src/Strings/Split.antt =====
-- strings.Split: a piece ends with the first separator.
use auth_service.Prelude.{
  ℕ, ◌≡◌, refl, inl, inr, Text, none, [], ◌∷◌, ◌++◌, eqb, arith, Bool-cases, Option-cases,
}
use auth_service.Strings.{split, index_byte}

-- The text without a separator is one piece.
pub split-alone : (sep : ℕ) (ip : Text) → index_byte sep ip ≡ none → split sep ip ≡ ip ∷ []
unfolding split index_byte
split-alone sep [] e = refl
split-alone sep (c ∷ ip) e = elim (Bool-cases (eqb c sep)) [
  | inl m ↦ absurd (ground arith)
  | inr m ↦ elim (Option-cases (index_byte sep ip)) [
    | inl n ↦ ground (arith, split-alone sep ip n)
    | inr (i, n) ↦ absurd (ground arith)
  ]
]

pub split-piece :
    (sep : ℕ) (a s : Text) → index_byte sep a ≡ none → split sep (a ++ sep ∷ s) ≡ a ∷ split sep s
unfolding split index_byte
split-piece sep [] s e = ground arith
split-piece sep (c ∷ a) s e = elim (Bool-cases (eqb c sep)) [
  | inl m ↦ absurd (ground arith)
  | inr m ↦ elim (Option-cases (index_byte sep a)) [
    | inl n ↦ ground (arith, split-piece sep a s n)
    | inr (i, n) ↦ absurd (ground arith)
  ]
]
