-- ===== src/Prelude/Maps.antt =====
-- Go's `map[string]V`: an association list, with assignment, deletion, lookup and iteration over
-- its entries. The order of the entries stands for the order in which one `range` visits them.
use mathlib.Core.Path.{◌≡◌, refl}
use mathlib.Core.Bool.{false}
use mathlib.Core.Logic.{◌≢◌, ◌⊎◌, inl, inr}
use mathlib.Core.Option.{Option, none, some}
use mathlib.Core.List.{List, [], ◌∷◌}
use native.Mathlib.Omega.{arith}
use auth_service.Prelude.Tests.{Bool-cases, if◌then◌else◌}
use auth_service.Prelude.Lists.{Text, ◌==◌, eq_iff, eq_refl}

abbrev pub Map {ℓ} : Type ℓ → Type ℓ
Map V = List (Text × V)

module _ {ℓ} {V : Type ℓ} where
  -- v, ok := m[k]
  unfoldable pub lookup : Text → Map V → Option V
  lookup k [] = none
  lookup k ((j, v) ∷ m) = if j == k then some v else lookup k m

  -- delete(m, k)
  unfoldable pub delete : Text → Map V → Map V
  delete k [] = []
  delete k ((j, v) ∷ m) = let rest = delete k m in if j == k then rest else (j, v) ∷ rest

  -- m[k] = v
  unfoldable pub insert : Text → V → Map V → Map V
  insert k v m = (k, v) ∷ delete k m

  pub lookup-delete :
      (k j : Text) (m : Map V) → lookup j (delete k m) ≡ (if k == j then none else lookup j m)
  unfolding lookup delete
  lookup-delete k j [] = ground arith
  lookup-delete k j ((i, v) ∷ m) =
      ground (arith, lookup-delete k j m, eq_iff i k, eq_iff i j, eq_iff k j)

  pub lookup-insert :
      (k j : Text) (v : V) (m : Map V)
      → lookup j (insert k v m) ≡ (if k == j then some v else lookup j m)
  unfolding lookup insert
  lookup-insert k j v m = ground (arith, lookup-delete k j m)

  pub lookup-insert_self : (k : Text) (v : V) (m : Map V) → lookup k (insert k v m) ≡ some v
  lookup-insert_self k v m = rw (lookup-insert, eq_refl)

  pub lookup-delete_self : (k : Text) (m : Map V) → lookup k (delete k m) ≡ none
  lookup-delete_self k m = rw (lookup-delete, eq_refl)

pub lookup-nil {ℓ} : {V : Type ℓ} (k : Text) → lookup {V = V} k [] ≡ none
unfolding lookup
lookup-nil k = refl

pub ruleset map_laws = (lookup-nil, lookup-delete, lookup-insert)

module _ {V : Type 0} where
  -- `m` has an entry that gives `k` the value `v`.
  abbrev pub In : Text → V → Map V → Type 0
  In k v [] = ⊥
  In k v ((j, w) ∷ m) = ((j ≡ k) × (w ≡ v)) ⊎ In k v m

  pub lookup-In : (k : Text) (v : V) (m : Map V) → lookup k m ≡ some v → In k v m
  unfolding lookup
  lookup-In k v [] e = ground arith
  lookup-In k v ((j, w) ∷ m) e = ground (arith, lookup-In k v m, eq_iff j k)

  kept :
      (i : Text) (w : V) (k j : Text) (v : V) (m : Map V)
      → (i == k) ≡ false
      → (In j v (delete k m) → (k ≢ j) × In j v m)
      → ((i ≡ j) × (w ≡ v)) ⊎ In j v (delete k m)
      → (k ≢ j) × (((i ≡ j) × (w ≡ v)) ⊎ In j v m)
  kept i w k j v m e ih (inl (p, q)) = (λ r. ground (arith, eq_iff i k), inl (p, q))
  kept i w k j v m e ih (inr old) = let r = ih old in (r.0, inr r.1)

  -- What is left after a deletion was there, under another key.
  pub In-delete : (k j : Text) (v : V) (m : Map V) → In j v (delete k m) → (k ≢ j) × In j v m
  unfolding delete
  In-delete k j v [] h = absurd h
  In-delete k j v ((i, w) ∷ m) h = elim (Bool-cases (i == k)) [
    | inl e ↦ let old = In-delete k j v m (rw e at h) in (old.0, inr old.1)
    | inr e ↦ kept i w k j v m e (In-delete k j v m) (rw e at h)
  ]

  pub In-insert :
      (k j : Text) (w v : V) (m : Map V)
      → In j v (insert k w m)
      → ((k ≡ j) × (w ≡ v)) ⊎ ((k ≢ j) × In j v m)
  unfolding insert
  In-insert k j w v m (inl e) = inl e
  In-insert k j w v m (inr old) = inr (In-delete k j v m old)
