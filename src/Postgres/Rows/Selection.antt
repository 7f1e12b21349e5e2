-- ===== src/Postgres/Rows/Selection.antt =====
-- The rows that a condition selects.
use auth_service.Prelude.{
  ◌≡◌, ◌⊎◌, inl, inr, refl, sym, ap, ◌∙◌, Text, Option, none, some, List, [], ◌∷◌, map, Bool, true,
  false, ◌==◌, eq_iff, eq_refl, arith, Bool-cases,
}
use auth_service.Ports.Laws.{listed}
use auth_service.Postgres.Rows.{row_of, Unique, select_rows}

abbrev pub Mem : {A : Type 0} → A → List A → Type 0
Mem x [] = ⊥
Mem x (y ∷ ys) = (y ≡ x) ⊎ Mem x ys

-- Whether a row passes a condition; what is not there does not.
abbrev pub passes : {A : Type 0} → (A → Bool) → Option A → Bool
passes p none = false
passes p (some x) = p x

module _ {A : Type 0} (key : A → Text) where
  pub row_of-Mem : (k : Text) (xs : List A) (x : A) → row_of key k xs ≡ some x → Mem x xs
  unfolding row_of
  row_of-Mem k [] x e = absurd (ground arith)
  row_of-Mem k (y ∷ ys) x e = elim (Bool-cases (key y == k)) [
    | inl h ↦ inl (ground arith)
    | inr h ↦ inr (row_of-Mem k ys x (ground arith))
  ]

  pub Mem-row_of : (xs : List A) (x : A) → Unique key xs → Mem x xs → row_of key (key x) xs ≡ some x
  unfolding row_of
  Mem-row_of [] x u m = absurd m
  Mem-row_of (y ∷ ys) x (f, u) (inl e) = ground (arith, eq_refl (key x))
  Mem-row_of (y ∷ ys) x (f, u) (inr m) = elim (Bool-cases (key y == key x)) [
    | inl h ↦
        let r = Mem-row_of ys x u m in
        let s : key y ≡ key x = (eq_iff (key y) (key x)).0 h in absurd (ground arith)
    | inr h ↦ rw (row_of, h) (Mem-row_of ys x u m)
  ]

module _ {A : Type 0} (p : A → Bool) where
  -- The first row that is selected is there and passes.
  pub select_rows-Mem :
      (xs ys : List A) (y : A) → select_rows p xs ≡ y ∷ ys → Mem y xs × (p y ≡ true)
  unfolding select_rows
  select_rows-Mem [] ys y e = absurd (cc)
  select_rows-Mem (x ∷ xs) ys y e = elim (Bool-cases (p x)) [
    | inl h ↦ let s : x ≡ y = ground arith in (inl s, ap p (sym s) ∙ h)
    | inr h ↦ let (m, q) = select_rows-Mem xs ys y (ground arith) in (inr m, q)
  ]

module _ {A : Type 0} (key : A → Text) (p : A → Bool) where
  unlisted :
      (k : Text) (xs : List A)
      → row_of key k xs ≡ none
      → listed k (map key (select_rows p xs)) ≡ false
  unfolding row_of select_rows
  unlisted k [] e = refl
  unlisted k (x ∷ xs) e = ground (arith, unlisted k xs)

  -- The hashes of the selected rows are those whose row passes.
  pub listed-select_rows :
      (k : Text) (xs : List A)
      → Unique key xs
      → listed k (map key (select_rows p xs)) ≡ passes p (row_of key k xs)
  unfolding row_of select_rows
  listed-select_rows k [] u = refl
  listed-select_rows k (x ∷ xs) (f, u) = elim (Bool-cases (key x == k)) [
    | inl h ↦
        let e : key x ≡ k = (eq_iff (key x) k).0 h in
        ground (arith, unlisted k xs, ap (λ j. row_of key j xs) e, f)
    | inr h ↦ ground (arith, listed-select_rows k xs u)
  ]
