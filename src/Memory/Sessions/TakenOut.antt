-- ===== src/Memory/Sessions/TakenOut.antt =====
-- internal/adapters/storage/memory/session.go: what DeleteByID and DeleteAllByUserID leave in both
-- maps.
use auth_service.Prelude.{ℕ, ◌≡◌, Text, some, none, if◌then◌else◌, ◌==◌}
use auth_service.Models.{Session}
use auth_service.Ports.{ok}
use auth_service.Ports.Laws.{is_user}
use auth_service.Memory.Sessions.{Sessions, find_by_id, delete_by_id, delete_all_by_user_id}
use auth_service.Memory.Sessions.Invariant.{IsValid}
use auth_service.Memory.Sessions.Owner.{owner, holder}
use auth_service.Memory.Sessions.Single.{delete_id-IsValid}
use auth_service.Memory.Sessions.Many.{delete_all-IsValid, owner-delete_all}
use auth_service.Memory.Sessions.ByIds.{holder-delete_all, delete_by_id-found}
use auth_service.Memory.Sessions.Implements.{delete_id_ok}

-- In a store whose maps are in step: a DeleteByID that returns a hash found under the given ID a
-- session of the given user with that hash. That session is gone from both maps, every other ID and
-- every other hash leads to the user it led to, and the maps are still in step.
pub delete_by_id_takes_out :
    (i u h : Text) (s : Sessions)
    → IsValid s
    → (delete_by_id i u s).0 ≡ ok h
    → ((p : ℕ) × (x : Session) × (find_by_id i s ≡ some (p, x))
        × (x.user_id ≡ u)
        × (x.token_hash ≡ h))
      × ((j : Text) → holder j (delete_by_id i u s).1 ≡ (if i == j then none else holder j s))
      × ((k : Text) → owner k (delete_by_id i u s).1 ≡ (if h == k then none else owner k s))
      × IsValid (delete_by_id i u s).1
delete_by_id_takes_out i u h s v e = (
  (delete_by_id-found i u h s i v e).0,
  λ j. (delete_by_id-found i u h s j v e).1,
  λ k. (delete_id_ok i u h s k v e).1,
  delete_id-IsValid i u s v,
)

-- In a store whose maps are in step: after DeleteAllByUserID every ID and every hash that led to a
-- session of the user leads to none, every other ID and every other hash leads to the user it led
-- to, and the maps are still in step.
pub delete_all_takes_out :
    (u : Text) (s : Sessions)
    → IsValid s
    → ((j : Text)
        → holder j (delete_all_by_user_id u s).1
          ≡ (if is_user u (holder j s) then none else holder j s))
      × ((k : Text)
          → owner k (delete_all_by_user_id u s).1
            ≡ (if is_user u (owner k s) then none else owner k s))
      × IsValid (delete_all_by_user_id u s).1
delete_all_takes_out u s v =
    (λ j. holder-delete_all u s j v, λ k. owner-delete_all u s v k, delete_all-IsValid u s v)
