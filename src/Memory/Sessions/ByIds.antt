-- ===== src/Memory/Sessions/ByIds.antt =====
-- internal/adapters/storage/memory/session.go: what the deletions do to the map of IDs.
use auth_service.Prelude.{
  ℕ, ◌≡◌, refl, sym, inl, inr, Text, Option, none, some, [], ◌∷◌, if◌then◌else◌, ◌==◌, eq_iff,
  arith, Bool, true, false, ◌||◌, ◌&&◌, Bool-cases, Option-cases,
}
use auth_service.Prelude.Heaps.{load}
use auth_service.Prelude.Maps.{Map, In, lookup, lookup-In}
use auth_service.Models.{Session}
use auth_service.Ports.{ok}
use auth_service.Ports.Laws.{is_user}
use auth_service.Memory.Sessions.{
  Heap, Sessions, drop, find_by_id, delete_where, delete_by_id, delete_all_by_user_id,
}
use auth_service.Memory.Sessions.Invariant.{IsValid}
use auth_service.Memory.Sessions.Owner.{holder, holder-drop, holder-found, holder-missing}
use auth_service.Memory.Sessions.Loop.{passes}

module _ (test : Session → Bool) where
  abbrev hit_under : Text → Text → Option Session → Bool
  hit_under j id none = false
  hit_under j id (some x) = test x && id == j

  -- Whether an entry of this ID leads to a session that passes the test.
  unfoldable gone : Map ℕ → Heap → Text → Bool
  gone [] h j = false
  gone ((id, p) ∷ es) h j = hit_under j id (load p h) || gone es h j

  loop-holder :
      (es : Map ℕ) (s : Sessions) (j : Text)
      → holder j (delete_where test es s).1 ≡ (if gone es s.heap j then none else holder j s)
  unfolding delete_where gone drop
  loop-holder [] s j = refl
  loop-holder ((id, p) ∷ es) s j = elim (Option-cases (load p s.heap)) [
    | inl e ↦ ground (arith, loop-holder es s j)
    | inr (x, e) ↦ ground (
      arith,
      loop-holder es s j,
      loop-holder es (drop id x.token_hash s) j,
      holder-drop id x.token_hash j s,
    )
  ]

  gone_of_In :
      (es : Map ℕ) (h : Heap) (j : Text) (p : ℕ) (x : Session)
      → In j p es
      → load p h ≡ some x
      → test x ≡ true
      → gone es h j ≡ true
  unfolding gone
  gone_of_In [] h j p x m e t = absurd m
  gone_of_In ((i, q) ∷ es) h j p x (inl (a, b)) e t = ground (arith, eq_iff i j)
  gone_of_In ((i, q) ∷ es) h j p x (inr m) e t = ground (arith, gone_of_In es h j p x m e t)

  gone-In :
      (es : Map ℕ) (h : Heap) (j : Text)
      → gone es h j ≡ true
      → (p : ℕ) × (x : Session) × In j p es × (load p h ≡ some x) × (test x ≡ true)
  unfolding gone
  gone-In [] h j g = ground arith
  gone-In ((i, q) ∷ es) h j g = elim (Bool-cases (gone es h j)) [
    | inl e ↦ let (p, x, m, l, t) = gone-In es h j e in (p, x, inr m, l, t)
    | inr e ↦ elim (Option-cases (load q h)) [
      | inl l ↦ ground arith
      | inr (x, l) ↦ (q, x, inl (ground (arith, eq_iff i j), refl), l, ground arith)
    ]
  ]

  found_of_gone :
      (s : Sessions) (j : Text)
      → IsValid s
      → gone s.by_id s.heap j ≡ true
      → (p : ℕ) × (x : Session) × (test x ≡ true) × (find_by_id j s ≡ some (p, x))
  unfolding find_by_id
  found_of_gone s j v g =
      let (p, x, m, l, t) = gone-In s.by_id s.heap j g in
      let (y, yi, filed) = v.ids j p m in
      let here : lookup j s.by_id ≡ some p = ground (arith, yi, filed.1) in
      (p, x, t, ground (arith, here, l))

  gone_of_found :
      (s : Sessions) (j : Text) (p : ℕ) (x : Session)
      → find_by_id j s ≡ some (p, x)
      → test x ≡ true
      → gone s.by_id s.heap j ≡ true
  unfolding find_by_id
  gone_of_found s j p x e t = elim (Option-cases (lookup j s.by_id)) [
    | inl l ↦ absurd (ground arith)
    | inr (q, l) ↦ elim (Option-cases (load q s.heap)) [
      | inl n ↦ absurd (ground arith)
      | inr (y, n) ↦ gone_of_In s.by_id s.heap j q y (lookup-In j q s.by_id l) n (ground arith)
    ]
  ]

  -- Over all entries, an ID is hit just if its session passes the test.
  gone-passes :
      (s : Sessions) (j : Text) → IsValid s → gone s.by_id s.heap j ≡ passes test (find_by_id j s)
  gone-passes s j v = elim (Bool-cases (gone s.by_id s.heap j)) [
    | inl g ↦ let (p, x, t, f) = found_of_gone s j v g in rw (g, f) (sym t)
    | inr g ↦ elim (Option-cases (find_by_id j s)) [
      | inl e ↦ rw (g, e)
      | inr ((p, x), e) ↦ rw (g, e) (ground (arith, gone_of_found s j p x e))
    ]
  ]

passes_user :
    (u j : Text) (s : Sessions)
    → passes (λ x. x.user_id == u) (find_by_id j s) ≡ is_user u (holder j s)
passes_user u j s = elim (Option-cases (find_by_id j s)) [
  | inl e ↦ rw (e, holder-missing j s e)
  | inr ((p, x), e) ↦ rw (e, holder-found j s p x e)
]

pub holder-delete_all :
    (u : Text) (s : Sessions) (j : Text)
    → IsValid s
    → holder j (delete_all_by_user_id u s).1 ≡ (if is_user u (holder j s) then none else holder j s)
unfolding delete_all_by_user_id
holder-delete_all u s j v =
    rw (← passes_user u j s, ← gone-passes (λ x. x.user_id == u) s j v)
      (loop-holder (λ x. x.user_id == u) s.by_id s j)

-- A DeleteByID that returns a hash found under the ID a session of the user with this hash, and
-- takes the ID out.
pub delete_by_id-found :
    (i u h : Text) (s : Sessions) (j : Text)
    → IsValid s
    → (delete_by_id i u s).0 ≡ ok h
    → ((p : ℕ) × (x : Session) × (find_by_id i s ≡ some (p, x))
        × (x.user_id ≡ u)
        × (x.token_hash ≡ h))
      × (holder j (delete_by_id i u s).1 ≡ (if i == j then none else holder j s))
unfolding delete_by_id
delete_by_id-found i u h s j v r = elim (Option-cases (find_by_id i s)) [
  | inl e ↦ absurd (ground arith)
  | inr ((p, x), e) ↦ elim (Bool-cases (x.user_id == u)) [
    | inl w ↦ (
      (p, x, e, (eq_iff x.user_id u).0 w, ground arith),
      rw (delete_by_id, e, w) (holder-drop i x.token_hash j s),
    )
    | inr w ↦ absurd (ground arith)
  ]
]
