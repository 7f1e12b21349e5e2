-- ===== src/Memory/Sessions/Many.antt =====
-- internal/adapters/storage/memory/session.go: the deletion of a user's sessions.
use auth_service.Prelude.{
  ◌≡◌, ap, inl, inr, Text, none, List, if◌then◌else◌, ◌==◌, arith, ◌&&◌, not, Option-cases,
}
use auth_service.Ports.{ok}
use auth_service.Ports.Laws.{listed, is_user, is_other}
use auth_service.Memory.Sessions.{
  Sessions, find_by_hash, delete_all_by_user_id, delete_all_by_user_id_except,
}
use auth_service.Memory.Sessions.Invariant.{IsValid}
use auth_service.Memory.Sessions.Owner.{owner, owner-found, owner-missing, find_by_hash-Filed}
use auth_service.Memory.Sessions.Loop.{
  passes, delete_where-IsValid, delete_where-owner, delete_where-listed,
}

-- The tests of the two loops, on what a hash leads to.
passes_user :
    (u k : Text) (s : Sessions)
    → passes (λ x. x.user_id == u) (find_by_hash k s) ≡ is_user u (owner k s)
passes_user u k s = elim (Option-cases (find_by_hash k s)) [
  | inl e ↦ rw (e, owner-missing k s e)
  | inr ((p, x), e) ↦ rw (e, owner-found k s p x e)
]

passes_other :
    (u keep k : Text) (s : Sessions)
    → IsValid s
    → passes (λ x. x.user_id == u && not (x.token_hash == keep)) (find_by_hash k s)
      ≡ is_other u keep k (owner k s)
passes_other u keep k s v = elim (Option-cases (find_by_hash k s)) [
  | inl e ↦ rw (e, owner-missing k s e)
  | inr ((p, x), e) ↦
      rw (e, owner-found k s p x e)
        (ap (λ (h : Text). x.user_id == u && not (h == keep)) (find_by_hash-Filed k s p x v e).0)
]

module _ (u : Text) (s : Sessions) (v : IsValid s) where
  pub delete_all-IsValid : IsValid (delete_all_by_user_id u s).1
  unfolding delete_all_by_user_id
  delete_all-IsValid = delete_where-IsValid _ s v

  -- In a store whose maps are in step: after DeleteAllByUserID a hash that led to a session of the
  -- user leads to none, and every other hash leads to the user it led to.
  pub owner-delete_all :
      (k : Text)
      → owner k (delete_all_by_user_id u s).1 ≡ (if is_user u (owner k s) then none else owner k s)
  unfolding delete_all_by_user_id
  owner-delete_all k = rw (← passes_user u k s) (delete_where-owner (λ x. x.user_id == u) s v k)

  -- In a store whose maps are in step: DeleteAllByUserID returns exactly the hashes of the user's
  -- sessions.
  pub listed-delete_all :
      (k : Text) (hs : List Text)
      → (delete_all_by_user_id u s).0 ≡ ok hs
      → listed k hs ≡ is_user u (owner k s)
  unfolding delete_all_by_user_id
  listed-delete_all k hs e =
      ground (arith, delete_where-listed (λ x. x.user_id == u) s v k, passes_user u k s)

  pub delete_others-IsValid : (keep : Text) → IsValid (delete_all_by_user_id_except u keep s).1
  unfolding delete_all_by_user_id_except
  delete_others-IsValid keep = delete_where-IsValid _ s v

  pub owner-delete_others :
      (keep k : Text)
      → owner k (delete_all_by_user_id_except u keep s).1
        ≡ (if is_other u keep k (owner k s) then none else owner k s)
  unfolding delete_all_by_user_id_except
  owner-delete_others keep k =
      rw (← passes_other u keep k s v)
        (delete_where-owner (λ x. x.user_id == u && not (x.token_hash == keep)) s v k)

  pub listed-delete_others :
      (keep k : Text) (hs : List Text)
      → (delete_all_by_user_id_except u keep s).0 ≡ ok hs
      → listed k hs ≡ is_other u keep k (owner k s)
  unfolding delete_all_by_user_id_except
  listed-delete_others keep k hs e = ground (
    arith,
    delete_where-listed (λ x. x.user_id == u && not (x.token_hash == keep)) s v k,
    passes_other u keep k s v,
  )
