-- ===== src/Memory/Sessions/Single.antt =====
-- internal/adapters/storage/memory/session.go: the operations on one session.
use auth_service.Prelude.{
  ℕ, ◌≡◌, refl, ◌∙◌, ap, inl, inr, Text, none, some, if◌then◌else◌, ◌==◌, eq_iff, arith, ◌⊎◌,
  Bool-cases, Option-cases, subst,
}
use auth_service.Prelude.Maps.{lookup, lookup-delete}
use auth_service.Models.{Session, Stamp}
use auth_service.Ports.{Error, ok, err, session_not_found}
use auth_service.Memory.Sessions.{
  Sessions, filled, drop, find_by_hash, find_by_id, create, get_by_token_hash, delete_by_id,
  delete_by_token_hash, rotate_token,
}
use auth_service.Memory.Sessions.Invariant.{
  IsValid, Filed-Alone, drop-IsValid, put-IsValid, store-IsValid,
}
use auth_service.Memory.Sessions.Owner.{
  owner, owner-drop, owner-put, owner-store, owner-found, owner-missing, owner-Filed,
  find_by_hash-Filed, find_by_id-Filed,
}

abbrev pub IsFresh : Stamp → Session → Sessions → Type 0
IsFresh t x s = (lookup (filled t x).id s.by_id ≡ none) × (lookup x.token_hash s.by_hash ≡ none)

module _ (t : Stamp) (x : Session) (s : Sessions) (v : IsValid s) where
  pub create-IsValid : IsFresh t x s → IsValid (create t x s).1
  unfolding create
  create-IsValid f = put-IsValid s v (filled t x) f.0 f.1

  pub owner-create :
      (k : Text)
      → owner k (create t x s).1 ≡ (if x.token_hash == k then some x.user_id else owner k s)
  unfolding create
  owner-create k = owner-put (filled t x) k s v

module _ (t : Stamp) (h : Text) (s : Sessions) (v : IsValid s) where
  pub get-IsValid : IsValid (get_by_token_hash t h s).1
  unfolding get_by_token_hash
  get-IsValid = elim (Option-cases (find_by_hash h s)) [
    | inl e ↦ rw (e, get_by_token_hash) v
    | inr ((p, x), e) ↦
        let (xh, filed) = find_by_hash-Filed h s p x v e in
        rw (e, get_by_token_hash)
          (store-IsValid s p x (record x { last_used_at = t.now }) filed.0 (refl, refl, refl) v)
  ]

  pub owner-get : (k : Text) → owner k (get_by_token_hash t h s).1 ≡ owner k s
  unfolding get_by_token_hash
  owner-get k = elim (Option-cases (find_by_hash h s)) [
    | inl e ↦ rw (e, get_by_token_hash)
    | inr ((p, x), e) ↦
        let (xh, filed) = find_by_hash-Filed h s p x v e in
        rw (e, get_by_token_hash)
          (owner-store p x (record x { last_used_at = t.now }) k s filed.0 (refl, refl, refl))
  ]

  pub get-found : (y : Session) → (get_by_token_hash t h s).0 ≡ ok y → owner h s ≡ some y.user_id
  unfolding get_by_token_hash
  get-found y e = elim (Option-cases (find_by_hash h s)) [
    | inl l ↦ ground arith
    | inr ((p, x), l) ↦ ground (arith, owner-found h s p x l)
  ]

module _ (h : Text) (s : Sessions) (v : IsValid s) where
  -- The two deletions of one session, by what finds it.
  drop_found-IsValid :
      (p : ℕ) (x : Session) → find_by_hash h s ≡ some (p, x) → IsValid (drop x.id h s)
  drop_found-IsValid p x e =
      let (xh, filed) = find_by_hash-Filed h s p x v e in
      subst (λ k. IsValid (drop x.id k s)) xh (drop-IsValid s v p x (Filed-Alone s p x filed))

  pub delete_hash-IsValid : IsValid (delete_by_token_hash h s).1
  unfolding delete_by_token_hash
  delete_hash-IsValid = elim (Option-cases (find_by_hash h s)) [
    | inl e ↦ rw (e, delete_by_token_hash) v
    | inr ((p, x), e) ↦ rw (e, delete_by_token_hash) (drop_found-IsValid p x e)
  ]

  pub owner-delete_hash :
      (k : Text) → owner k (delete_by_token_hash h s).1 ≡ (if h == k then none else owner k s)
  unfolding delete_by_token_hash
  owner-delete_hash k = elim (Option-cases (find_by_hash h s)) [
    | inl e ↦ rw (e, delete_by_token_hash) (ground (arith, eq_iff h k, owner-missing h s e))
    | inr ((p, x), e) ↦ rw (e, delete_by_token_hash) (owner-drop x.id h k s)
  ]

  -- In a store whose maps are in step: RotateToken keeps the two maps in step, where the new ID
  -- and the new hash are in no use.
  pub rotate-IsValid : (t : Stamp) (y : Session) → IsFresh t y s → IsValid (rotate_token t h y s).1
  unfolding rotate_token drop
  rotate-IsValid t y f = elim (Option-cases (find_by_hash h s)) [
    | inl e ↦ rw (e, rotate_token) v
    | inr ((p, x), e) ↦
        rw (e, rotate_token)
          (put-IsValid (drop x.id h s) (drop_found-IsValid p x e) (filled t y)
            (ground (arith, lookup-delete x.id (filled t y).id s.by_id))
            (ground (arith, lookup-delete h y.token_hash s.by_hash)))
  ]

  pub rotate-found :
      (t : Stamp) (y z : Session)
      → (rotate_token t h y s).0 ≡ ok z
      → (p : ℕ) × (x : Session) × (find_by_hash h s ≡ some (p, x))
  unfolding rotate_token
  rotate-found t y z e = elim (Option-cases (find_by_hash h s)) [
    | inl l ↦ ground arith
    | inr ((p, x), l) ↦ (p, x, l)
  ]

  pub owner-rotate :
      (t : Stamp) (y : Session) (k : Text) (p : ℕ) (x : Session)
      → find_by_hash h s ≡ some (p, x)
      → owner k (rotate_token t h y s).1
        ≡ (if y.token_hash == k then some y.user_id else if h == k then none else owner k s)
  unfolding rotate_token
  owner-rotate t y k p x e =
      rw (e, rotate_token)
        (ground (
          arith,
          owner-put (filled t y) k (drop x.id h s) (drop_found-IsValid p x e),
          owner-drop x.id h k s,
        ))

  pub owner-rotate_missing :
      (t : Stamp) (y : Session) (k : Text)
      → find_by_hash h s ≡ none
      → owner k (rotate_token t h y s).1 ≡ owner k s
  unfolding rotate_token
  owner-rotate_missing t y k e = rw (e, rotate_token)

module _ (i u : Text) (s : Sessions) (v : IsValid s) where
  drop_id-IsValid :
      (p : ℕ) (x : Session) → find_by_id i s ≡ some (p, x) → IsValid (drop i x.token_hash s)
  drop_id-IsValid p x e =
      let (xi, filed) = find_by_id-Filed i s p x v e in
      subst (λ j. IsValid (drop j x.token_hash s)) xi
        (drop-IsValid s v p x (Filed-Alone s p x filed))

  pub delete_id-IsValid : IsValid (delete_by_id i u s).1
  unfolding delete_by_id
  delete_id-IsValid = elim (Option-cases (find_by_id i s)) [
    | inl e ↦ rw (e, delete_by_id) v
    | inr ((p, x), e) ↦ elim (Bool-cases (x.user_id == u)) [
      | inl w ↦ rw (e, delete_by_id, w) (drop_id-IsValid p x e)
      | inr w ↦ rw (e, delete_by_id, w) v
    ]
  ]

  -- Either nothing changes and the answer is an error, or a session of the user goes.
  pub delete_id_cases :
      (k : Text)
      → ((e : Error) × ((delete_by_id i u s).0 ≡ err e)
          × (owner k (delete_by_id i u s).1 ≡ owner k s))
        ⊎ ((h : Text) × ((delete_by_id i u s).0 ≡ ok h)
            × (owner h s ≡ some u)
            × (owner k (delete_by_id i u s).1 ≡ (if h == k then none else owner k s)))
  unfolding delete_by_id
  delete_id_cases k = elim (Option-cases (find_by_id i s)) [
    | inl e ↦ inl (session_not_found, rw (e, delete_by_id), rw (e, delete_by_id))
    | inr ((p, x), e) ↦ elim (Bool-cases (x.user_id == u)) [
      | inl w ↦ inr (
        x.token_hash,
        rw (e, delete_by_id, w),
        filed_owner p x e ∙ ap some ((eq_iff x.user_id u).0 w),
        rw (e, delete_by_id, w) (owner-drop i x.token_hash k s),
      )
      | inr w ↦ inl (session_not_found, rw (e, delete_by_id, w), rw (e, delete_by_id, w))
    ]
  ]
    where
      filed_owner :
          (p : ℕ) (x : Session)
          → find_by_id i s ≡ some (p, x)
          → owner x.token_hash s ≡ some x.user_id
      filed_owner p x e = owner-Filed s p x (find_by_id-Filed i s p x v e).1
