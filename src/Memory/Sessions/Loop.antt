-- ===== src/Memory/Sessions/Loop.antt =====
-- internal/adapters/storage/memory/session.go: the loops that delete sessions by a test.
use auth_service.Prelude.{
  ℕ, ◌≡◌, refl, sym, ◌∙◌, inl, inr, Text, Option, none, some, [], ◌∷◌, if◌then◌else◌, ◌==◌, eq_iff,
  arith, Bool, true, false, ◌||◌, ◌&&◌, Bool-cases, Option-cases, subst,
}
use auth_service.Prelude.Heaps.{load}
use auth_service.Prelude.Maps.{Map, In, lookup, lookup-In}
use auth_service.Models.{Session}
use auth_service.Ports.Laws.{listed}
use auth_service.Memory.Sessions.{Heap, Sessions, drop, find_by_hash, delete_where}
use auth_service.Memory.Sessions.Invariant.{IsValid, Alone, Filed-Alone, drop-Alone, drop-IsValid}
use auth_service.Memory.Sessions.Owner.{owner, owner-drop, find_by_hash-Filed}

-- Each entry leads to a session that it names and that is nowhere else.
abbrev AllAlone : Sessions → Map ℕ → Type 0
AllAlone s [] = Unit {0}
AllAlone s ((id, p) ∷ es) = ((x : Session) × (x.id ≡ id) × Alone s p x) × AllAlone s es

IsValid-AllAlone :
    (s : Sessions) (es : Map ℕ)
    → IsValid s
    → ((i : Text) (p : ℕ) → In i p es → In i p s.by_id)
    → AllAlone s es
IsValid-AllAlone s [] v sub = tt
IsValid-AllAlone s ((id, p) ∷ es) v sub =
    let (x, xi, filed) = v.ids id p (sub id p (inl (refl, refl))) in
    ((x, xi, Filed-Alone s p x filed), IsValid-AllAlone s es v (λ i q h. sub i q (inr h)))

drop-AllAlone : (i h : Text) (s : Sessions) (es : Map ℕ) → AllAlone s es → AllAlone (drop i h s) es
drop-AllAlone i h s [] all = tt
drop-AllAlone i h s ((id, p) ∷ es) ((x, xi, alone), all) =
    ((x, xi, drop-Alone s i h p x alone), drop-AllAlone i h s es all)

module _ (test : Session → Bool) where
  -- The loop keeps the maps in step.
  loop-IsValid :
      (es : Map ℕ) (s : Sessions) → IsValid s → AllAlone s es → IsValid (delete_where test es s).1
  unfolding delete_where
  loop-IsValid [] s v all = v
  loop-IsValid ((id, p) ∷ es) s v ((x, xi, alone), all) = elim (Bool-cases (test x)) [
    | inl hit ↦
        let v' : IsValid (drop id x.token_hash s) =
          subst (λ i. IsValid (drop i x.token_hash s)) xi (drop-IsValid s v p x alone) in
        rw (alone.0, delete_where, hit)
          (loop-IsValid es (drop id x.token_hash s) v' (drop-AllAlone id x.token_hash s es all))
    | inr miss ↦ rw (alone.0, delete_where, miss) (loop-IsValid es s v all)
  ]

  abbrev hit_by : Text → Option Session → Bool
  hit_by k none = false
  hit_by k (some x) = test x && x.token_hash == k

  -- Whether one of the entries leads to a session of this hash that passes the test.
  unfoldable gone : Map ℕ → Heap → Text → Bool
  gone [] h k = false
  gone ((id, p) ∷ es) h k = hit_by k (load p h) || gone es h k

  loop-owner :
      (es : Map ℕ) (s : Sessions) (k : Text)
      → owner k (delete_where test es s).1 ≡ (if gone es s.heap k then none else owner k s)
  unfolding delete_where gone drop
  loop-owner [] s k = refl
  loop-owner ((id, p) ∷ es) s k = elim (Option-cases (load p s.heap)) [
    | inl e ↦ ground (arith, loop-owner es s k)
    | inr (x, e) ↦ ground (
      arith,
      loop-owner es s k,
      loop-owner es (drop id x.token_hash s) k,
      owner-drop id x.token_hash k s,
    )
  ]

  -- The loop returns exactly the hashes that it takes out.
  loop-listed :
      (es : Map ℕ) (s : Sessions) (k : Text)
      → listed k (delete_where test es s).0 ≡ gone es s.heap k
  unfolding delete_where gone drop
  loop-listed [] s k = refl
  loop-listed ((id, p) ∷ es) s k = elim (Option-cases (load p s.heap)) [
    | inl e ↦ ground (arith, loop-listed es s k)
    | inr (x, e) ↦ ground (arith, loop-listed es s k, loop-listed es (drop id x.token_hash s) k)
  ]

  abbrev pub passes : Option (ℕ × Session) → Bool
  passes none = false
  passes (some (p, x)) = test x

  gone_of_In :
      (es : Map ℕ) (h : Heap) (k i : Text) (p : ℕ) {x : Session}
      → In i p es
      → load p h ≡ some x
      → test x ≡ true
      → x.token_hash ≡ k
      → gone es h k ≡ true
  unfolding gone
  gone_of_In [] h k i p m e t w = absurd m
  gone_of_In ((j, q) ∷ es) h k i p {x} (inl (a, b)) e t w = ground (arith, eq_iff x.token_hash k)
  gone_of_In ((j, q) ∷ es) h k i p {x} (inr m) e t w = ground (arith, gone_of_In es h k i p m e t w)

  gone-In :
      (es : Map ℕ) (h : Heap) (k : Text)
      → gone es h k ≡ true
      → (i : Text) × (p : ℕ) × (x : Session) × In i p es
        × (load p h ≡ some x)
        × (test x ≡ true)
        × (x.token_hash ≡ k)
  unfolding gone
  gone-In [] h k g = ground arith
  gone-In ((j, q) ∷ es) h k g = elim (Bool-cases (gone es h k)) [
    | inl e ↦ let r = gone-In es h k e in (r.0, r.1, r.2, inr r.3, r.4, r.5, r.6)
    | inr e ↦ elim (Option-cases (load q h)) [
      | inl l ↦ ground arith
      | inr (x, l) ↦
          (j, q, x, inl (refl, refl), l, ground arith, ground (arith, eq_iff x.token_hash k))
    ]
  ]

  found_of_gone :
      (s : Sessions) (k : Text)
      → IsValid s
      → gone s.by_id s.heap k ≡ true
      → (p : ℕ) × (x : Session) × (test x ≡ true) × (find_by_hash k s ≡ some (p, x))
  unfolding find_by_hash
  found_of_gone s k v g =
      let r = gone-In s.by_id s.heap k g in
      let (y, yi, filed) = v.ids r.0 r.1 r.3 in
      let one : y ≡ r.2 = ground (arith, filed.0, r.4) in
      let here : lookup k s.by_hash ≡ some r.1 = ground (arith, one, filed.2, r.6) in
      (r.1, r.2, r.5, ground (arith, here, r.4))

  gone_of_found :
      (s : Sessions) (k : Text) (p : ℕ) (x : Session)
      → IsValid s
      → find_by_hash k s ≡ some (p, x)
      → test x ≡ true
      → gone s.by_id s.heap k ≡ true
  gone_of_found s k p x v e t =
      let (xh, filed) = find_by_hash-Filed k s p x v e in
      gone_of_In s.by_id s.heap k x.id p (lookup-In x.id p s.by_id filed.1) filed.0 t xh

  -- Over all entries, a hash is hit just if its session passes the test.
  gone-passes :
      (s : Sessions) (k : Text) → IsValid s → gone s.by_id s.heap k ≡ passes (find_by_hash k s)
  gone-passes s k v = elim (Bool-cases (gone s.by_id s.heap k)) [
    | inl g ↦ let r = found_of_gone s k v g in rw (g, r.3) (sym r.2)
    | inr g ↦ elim (Option-cases (find_by_hash k s)) [
      | inl e ↦ rw (g, e)
      | inr ((p, x), e) ↦ rw (g, e) (ground (arith, gone_of_found s k p x v e))
    ]
  ]

  module _ (s : Sessions) (v : IsValid s) where
    pub delete_where-IsValid : IsValid (delete_where test s.by_id s).1
    delete_where-IsValid = loop-IsValid s.by_id s v (IsValid-AllAlone s s.by_id v (λ i p h. h))

    pub delete_where-owner :
        (k : Text)
        → owner k (delete_where test s.by_id s).1
          ≡ (if passes (find_by_hash k s) then none else owner k s)
    delete_where-owner k = rw (← gone-passes s k v) (loop-owner s.by_id s k)

    pub delete_where-listed :
        (k : Text) → listed k (delete_where test s.by_id s).0 ≡ passes (find_by_hash k s)
    delete_where-listed k = loop-listed s.by_id s k ∙ gone-passes s k v
