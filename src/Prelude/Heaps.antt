-- ===== src/Prelude/Heaps.antt =====
-- Records behind pointers: a heap of cells, newest first, whose addresses count the cells below.
use Prim.Native.Nat.{ℕ, ◌<◌}
use mathlib.Core.Path.{◌≡◌, refl}
use mathlib.Core.Option.{Option, none, some}
use mathlib.Core.List.{List, [], ◌∷◌}
use native.Mathlib.Omega.{arith}
use auth_service.Prelude.Tests.{eqb, if◌then◌else◌}
use auth_service.Prelude.Lists.{length}

module _ {A : Type 0} where
  -- *p, absent for an address that was not given out
  unfoldable pub load : ℕ → List A → Option A
  load p [] = none
  load p (x ∷ h) = if eqb p (length h) then some x else load p h

  -- *p = v
  unfoldable pub store : ℕ → A → List A → List A
  store p v [] = []
  store p v (x ∷ h) = let rest = store p v h in if eqb p (length h) then v ∷ h else x ∷ rest

  pub length-store : (p : ℕ) (v : A) (h : List A) → length (store p v h) ≡ length h
  unfolding store
  length-store p v [] = refl
  length-store p v (x ∷ h) = ground (arith, length-store p v h)

  pub load-lt : (p : ℕ) (h : List A) {v : A} → load p h ≡ some v → p < length h
  unfolding load
  load-lt p [] e = ground arith
  load-lt p (x ∷ h) {v} e = ground (arith, load-lt p h {v = v})

  -- A new cell does not show through the addresses that were given out.
  pub load-cons : (p : ℕ) (x : A) (h : List A) {v : A} → load p h ≡ some v → load p (x ∷ h) ≡ some v
  unfolding load
  load-cons p x h {v} e = ground (arith, load-lt p h {v = v} e)

  pub load-new : (x : A) (h : List A) → load (length h) (x ∷ h) ≡ some x
  unfolding load
  load-new x h = ground arith

  pub load-store :
      (p q : ℕ) (v : A) (h : List A)
      → p < length h
      → load q (store p v h) ≡ (if eqb p q then some v else load q h)
  unfolding load store
  load-store p q v [] b = elim b [ ]
  load-store p q v (x ∷ h) b = ground (arith, load-store p q v h, length-store p v h)
