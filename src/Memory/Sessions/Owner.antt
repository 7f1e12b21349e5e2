-- ===== src/Memory/Sessions/Owner.antt =====
-- internal/adapters/storage/memory/session.go: which user a token's hash leads to, and what each
-- step of the store does to that.
use auth_service.Prelude.{
  ℕ, ◌≡◌, ◌≢◌, inl, inr, Text, Option, none, some, length, if◌then◌else◌, ◌==◌, arith, Option-cases,
}
use auth_service.Prelude.Heaps.{load, store, load-lt, load-cons, load-new, load-store}
use auth_service.Prelude.Maps.{lookup, lookup-delete, lookup-insert, lookup-In}
use auth_service.Models.{Session}
use auth_service.Memory.Sessions.{Sessions, put, drop, find_by_hash, find_by_id}
use auth_service.Memory.Sessions.Invariant.{IsValid, Filed, Touched}

abbrev pub user_of : Option (ℕ × Session) → Option Text
user_of none = none
user_of (some (p, x)) = some x.user_id

-- The user to whom the session of a hash belongs.
unfoldable pub owner : Text → Sessions → Option Text
unfolding find_by_hash
owner k s = user_of (find_by_hash k s)

pub owner-drop :
    (i h k : Text) (s : Sessions) → owner k (drop i h s) ≡ (if h == k then none else owner k s)
unfolding owner drop
owner-drop i h k s = ground (arith, lookup-delete h k s.by_hash)

pub owner-put :
    (x : Session) (k : Text) (s : Sessions)
    → IsValid s
    → owner k (put x s) ≡ (if x.token_hash == k then some x.user_id else owner k s)
unfolding owner put
owner-put x k s v = elim (Option-cases (lookup k s.by_hash)) [
  | inl e ↦
      ground (arith, lookup-insert x.token_hash k (length s.heap) s.by_hash, load-new x s.heap)
  | inr (p, e) ↦
      let (y, _, filed) = v.hashes k p e in
      ground (
        arith,
        lookup-insert x.token_hash k (length s.heap) s.by_hash,
        load-new x s.heap,
        load-cons p x s.heap filed.0,
      )
]

pub owner-store :
    (p : ℕ) (x y : Session) (k : Text) (s : Sessions)
    → load p s.heap ≡ some x
    → Touched x y
    → owner k (record s { heap = store p y s.heap }) ≡ owner k s
unfolding owner
owner-store p x y k s at t = elim (Option-cases (lookup k s.by_hash)) [
  | inl e ↦ ground arith
  | inr (q, e) ↦ ground (arith, load-store p q y s.heap (load-lt p s.heap at))
]

-- What a lookup by hash or by ID finds is filed.
pub find_by_hash-Filed :
    (h : Text) (s : Sessions) (p : ℕ) (x : Session)
    → IsValid s
    → find_by_hash h s ≡ some (p, x)
    → (x.token_hash ≡ h) × Filed s p x
unfolding find_by_hash
find_by_hash-Filed h s p x v e = elim (Option-cases (lookup h s.by_hash)) [
  | inl l ↦ ground arith
  | inr (q, l) ↦
      let (y, yh, filed) = v.hashes h q l in
      let pair : ◌≡◌ {A = Option (ℕ × Session)} (some (q, y)) (some (p, x)) =
        ground (arith, filed.0) in
      ground (arith, pair, yh, filed.0, filed.1, filed.2)
]

pub find_by_id-Filed :
    (i : Text) (s : Sessions) (p : ℕ) (x : Session)
    → IsValid s
    → find_by_id i s ≡ some (p, x)
    → (x.id ≡ i) × Filed s p x
unfolding find_by_id
find_by_id-Filed i s p x v e = elim (Option-cases (lookup i s.by_id)) [
  | inl l ↦ ground arith
  | inr (q, l) ↦
      let (y, yi, filed) = v.ids i q (lookup-In i q s.by_id l) in
      let pair : ◌≡◌ {A = Option (ℕ × Session)} (some (q, y)) (some (p, x)) =
        ground (arith, filed.0) in
      ground (arith, pair, yi, filed.0, filed.1, filed.2)
]

pub owner-none : (k : Text) (s : Sessions) → lookup k s.by_hash ≡ none → owner k s ≡ none
unfolding owner find_by_hash
owner-none k s e = ground arith

pub owner-found :
    (k : Text) (s : Sessions) (p : ℕ) (x : Session)
    → find_by_hash k s ≡ some (p, x)
    → owner k s ≡ some x.user_id
unfolding owner
owner-found k s p x e = ground arith

pub owner-missing : (k : Text) (s : Sessions) → find_by_hash k s ≡ none → owner k s ≡ none
unfolding owner
owner-missing k s e = ground arith

pub owner-Filed :
    (s : Sessions) (p : ℕ) (x : Session) → Filed s p x → owner x.token_hash s ≡ some x.user_id
unfolding owner find_by_hash
owner-Filed s p x f = ground (arith, f.0, f.2)

-- Unless the hash leads nowhere, it has an owner.
pub owner-ne-none :
    (k : Text) (s : Sessions) (p : ℕ) (x : Session)
    → find_by_hash k s ≡ some (p, x)
    → owner k s ≢ none
owner-ne-none k s p x e n = ground (arith, owner-found k s p x e)

-- The user to whom the session of an ID belongs.
unfoldable pub holder : Text → Sessions → Option Text
unfolding find_by_id
holder j s = user_of (find_by_id j s)

pub holder-drop :
    (i h j : Text) (s : Sessions) → holder j (drop i h s) ≡ (if i == j then none else holder j s)
unfolding holder drop
holder-drop i h j s = ground (arith, lookup-delete i j s.by_id)

pub holder-found :
    (j : Text) (s : Sessions) (p : ℕ) (x : Session)
    → find_by_id j s ≡ some (p, x)
    → holder j s ≡ some x.user_id
unfolding holder
holder-found j s p x e = ground arith

pub holder-missing : (j : Text) (s : Sessions) → find_by_id j s ≡ none → holder j s ≡ none
unfolding holder
holder-missing j s e = ground arith
