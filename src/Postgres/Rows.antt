-- ===== src/Postgres/Rows.antt =====
-- Rows that are found by their token's hash or their ID, where no two have either in common.
pub mod Selection
use auth_service.Prelude.{
  ◌≡◌, ◌≢◌, ◌⊎◌, inl, inr, refl, sym, Text, Option, none, some, List, [], ◌∷◌, Bool, true, false,
  ◌==◌, eq_iff, eq_refl, ne→eq_false, if◌then◌else◌, not, arith, Bool-cases, Option-cases, ◌&&◌,
}

module _ {A : Type 0} (key : A → Text) where
  -- The first row with the key.
  unfoldable pub row_of : Text → List A → Option A
  row_of k [] = none
  row_of k (x ∷ xs) = let rest = row_of k xs in if key x == k then some x else rest

  -- No two rows have a key in common.
  abbrev pub Unique : List A → Type 0
  Unique [] = Unit {0}
  Unique (x ∷ xs) = (row_of (key x) xs ≡ none) × Unique xs

-- The rows that a DELETE with this condition leaves, and the ones that it takes.
unfoldable pub delete_rows : {A : Type 0} → (A → Bool) → List A → List A
delete_rows p [] = []
delete_rows p (x ∷ xs) = let rest = delete_rows p xs in if p x then rest else x ∷ rest

unfoldable pub select_rows : {A : Type 0} → (A → Bool) → List A → List A
select_rows p [] = []
select_rows p (x ∷ xs) = let rest = select_rows p xs in if p x then x ∷ rest else rest

-- A row that is left over by a DELETE with this condition.
abbrev pub unless : {A : Type 0} → (A → Bool) → Option A → Option A
unless p none = none
unless p (some x) = if p x then none else some x

module _ {A : Type 0} (key : A → Text) (p : A → Bool) where
  row_of-gone :
      (k : Text) (xs : List A) → row_of key k xs ≡ none → row_of key k (delete_rows p xs) ≡ none
  unfolding row_of delete_rows
  row_of-gone k [] e = refl
  row_of-gone k (x ∷ xs) e = ground (arith, row_of-gone k xs)

  pub row_of-delete_rows :
      (k : Text) (xs : List A)
      → Unique key xs
      → row_of key k (delete_rows p xs) ≡ unless p (row_of key k xs)
  unfolding row_of delete_rows
  row_of-delete_rows k [] u = refl
  row_of-delete_rows k (x ∷ xs) (f, u) =
      ground (arith, row_of-delete_rows k xs u, row_of-gone k xs, eq_iff (key x) k)

  pub delete_rows-Unique : (xs : List A) → Unique key xs → Unique key (delete_rows p xs)
  unfolding delete_rows
  delete_rows-Unique [] u = tt
  delete_rows-Unique (x ∷ xs) (f, u) = elim (Bool-cases (p x)) [
    | inl e ↦ rw (delete_rows, e) (delete_rows-Unique xs u)
    | inr e ↦ rw (delete_rows, e) (row_of-gone (key x) xs f, delete_rows-Unique xs u)
  ]

-- A row is found under its key.
pub key-row_of :
    {A : Type 0} (key : A → Text) (k : Text) (xs : List A) (x : A)
    → row_of key k xs ≡ some x
    → key x ≡ k
unfolding row_of
key-row_of key k [] x e = ground arith
key-row_of key k (y ∷ xs) x e = ground (arith, key-row_of key k xs x, eq_iff (key y) k)
