-- ===== src/Memory/Sessions/Implements.antt =====
-- internal/adapters/storage/memory/session.go: the store keeps the laws of ports.SessionStore.
use auth_service.Prelude.{
  ◌≡◌, ◌≢◌, refl, sym, ◌∙◌, inl, inr, Text, none, some, if◌then◌else◌, ◌==◌, eq_iff, arith, ◌⊎◌,
  Bool-cases, Option-cases,
}
use auth_service.Models.{Session, Stamp}
use auth_service.Ports.{ok}
use auth_service.Ports.Laws.{SessionLaws}
use auth_service.Memory.Sessions.{
  Sessions, find_by_hash, create, delete_by_id, delete_by_token_hash, rotate_token,
  delete_all_by_user_id, delete_all_by_user_id_except, list_by_user_id, session_store,
}
use auth_service.Memory.Sessions.Invariant.{IsValid}
use auth_service.Memory.Sessions.Owner.{owner, owner-none, owner-ne-none}
use auth_service.Memory.Sessions.Single.{
  IsFresh, create-IsValid, owner-create, get-IsValid, owner-get, get-found, delete_hash-IsValid,
  owner-delete_hash, rotate-IsValid, rotate-found, owner-rotate, owner-rotate_missing,
  delete_id-IsValid, delete_id_cases,
}
use auth_service.Memory.Sessions.Many.{
  delete_all-IsValid, owner-delete_all, listed-delete_all, delete_others-IsValid,
  owner-delete_others, listed-delete_others,
}

-- In a store whose maps are in step: a hash that DeleteByID returns was the given user's and leads
-- to no session any more, while every other hash leads to the user it led to.
pub delete_id_ok :
    (i u h : Text) (s : Sessions) (k : Text)
    → IsValid s
    → (delete_by_id i u s).0 ≡ ok h
    → (owner h s ≡ some u) × (owner k (delete_by_id i u s).1 ≡ (if h == k then none else owner k s))
delete_id_ok i u h s k v e = elim (delete_id_cases i u s v k) [
  | inl (x, r, _) ↦ cc
  | inr (g, r, o, w) ↦ ground arith
]

pub delete_id_only :
    (i u : Text) (s : Sessions) (k w : Text)
    → IsValid s
    → owner k (delete_by_id i u s).1 ≡ some w
    → owner k s ≡ some w
delete_id_only i u s k w v e = elim (delete_id_cases i u s v k) [
  | inl (y, r, o) ↦ sym o ∙ e
  | inr (g, r, _, o) ↦ ground arith
]

-- In a store whose maps are in step: a RotateToken that succeeds found a session under the old
-- hash; the new session's hash belongs to its user, the old one to none unless it is the same,
-- and every other hash belongs as before.
pub rotate_ok :
    (t : Stamp) (h : Text) (x y : Session) (s : Sessions) (k : Text)
    → IsValid s
    → (rotate_token t h x s).0 ≡ ok y
    → (owner h s ≢ none)
      × (owner k (rotate_token t h x s).1
          ≡ (if x.token_hash == k then some x.user_id else if h == k then none else owner k s))
rotate_ok t h x y s k v e =
    let (p, z, l) = rotate-found h s v t x y e in
    (owner-ne-none h s p z l, owner-rotate h s v t x k p z l)

pub rotate_only :
    (t : Stamp) (h : Text) (x : Session) (s : Sessions) (k u : Text)
    → IsValid s
    → owner k (rotate_token t h x s).1 ≡ some u
    → (owner k s ≡ some u) ⊎ ((owner h s ≢ none) × (x.token_hash ≡ k) × (x.user_id ≡ u))
rotate_only t h x s k u v e = elim (Option-cases (find_by_hash h s)) [
  | inl l ↦ inl (sym (owner-rotate_missing h s v t x k l) ∙ e)
  | inr ((p, z), l) ↦ elim (Bool-cases (x.token_hash == k)) [
    | inl w ↦ inr (
      owner-ne-none h s p z l,
      (eq_iff x.token_hash k).0 w,
      ground (arith, owner-rotate h s v t x k p z l),
    )
    | inr w ↦ inl (ground (arith, owner-rotate h s v t x k p z l))
  ]
]

pub create_only :
    (t : Stamp) (x : Session) (s : Sessions) (k u : Text)
    → IsValid s
    → owner k (create t x s).1 ≡ some u
    → (owner k s ≡ some u) ⊎ ((x.token_hash ≡ k) × (x.user_id ≡ u))
create_only t x s k u v e = elim (Bool-cases (x.token_hash == k)) [
  | inl w ↦ inr ((eq_iff x.token_hash k).0 w, ground (arith, owner-create t x s v k))
  | inr w ↦ inl (ground (arith, owner-create t x s v k))
]

pub delete_hash_only :
    (h : Text) (s : Sessions) (k w : Text)
    → IsValid s
    → owner k (delete_by_token_hash h s).1 ≡ some w
    → owner k s ≡ some w
delete_hash_only h s k w v e = ground (arith, owner-delete_hash h s v k)

pub delete_all_only :
    (u : Text) (s : Sessions) (k w : Text)
    → IsValid s
    → owner k (delete_all_by_user_id u s).1 ≡ some w
    → owner k s ≡ some w
delete_all_only u s k w v e = ground (arith, owner-delete_all u s v k)

pub delete_others_only :
    (u keep : Text) (s : Sessions) (k w : Text)
    → IsValid s
    → owner k (delete_all_by_user_id_except u keep s).1 ≡ some w
    → owner k s ≡ some w
delete_others_only u keep s k w v e = ground (arith, owner-delete_others u s v keep k)

pub list-IsValid : (u : Text) (s : Sessions) → IsValid s → IsValid (list_by_user_id u s).1
unfolding list_by_user_id
list-IsValid u s v = v

pub owner-list :
    (u : Text) (s : Sessions) (k : Text) → IsValid s → owner k (list_by_user_id u s).1 ≡ owner k s
unfolding list_by_user_id
owner-list u s k v = refl

-- The laws, with the invariant and the view that the store gives them.
abbrev pub session_laws : SessionLaws session_store
session_laws = record {
  IsValid = IsValid;
  IsFresh = IsFresh;
  owner = owner;
  fresh_hash = λ t x s f. owner-none x.token_hash s f.1;
  create_valid = create-IsValid;
  create_only = create_only;
  create_ok = λ t x y s k v e. owner-create t x s v k;
  get_valid = get-IsValid;
  get_owner = λ t h s k v. owner-get t h s v k;
  get_ok = λ t h x s v e. get-found t h s v x e;
  delete_id_valid = delete_id-IsValid;
  delete_id_only = delete_id_only;
  delete_id_ok = delete_id_ok;
  delete_hash_valid = delete_hash-IsValid;
  delete_hash_only = delete_hash_only;
  delete_hash_ok = λ h s k v e. owner-delete_hash h s v k;
  rotate_valid = λ t h x s v f. rotate-IsValid h s v t x f;
  rotate_only = rotate_only;
  rotate_ok = rotate_ok;
  delete_all_valid = delete_all-IsValid;
  delete_all_only = delete_all_only;
  delete_all_ok = λ u hs s k v e. (listed-delete_all u s v k hs e, owner-delete_all u s v k);
  delete_others_valid = λ u keep s v. delete_others-IsValid u s v keep;
  delete_others_only = delete_others_only;
  delete_others_ok = λ u keep hs s k v e.
      (listed-delete_others u s v keep k hs e, owner-delete_others u s v keep k);
  list_valid = list-IsValid;
  list_owner = owner-list;
}

-- The in-memory store keeps every law that the service relies on: each operation keeps the
-- invariant and changes the sessions' owners as its interface says, on success and on failure.
session_store-SessionLaws : SessionLaws session_store
session_store-SessionLaws = session_laws
