-- ===== src/Memory/Users.antt =====
-- internal/adapters/storage/memory/user.go. Both maps hold pointers to one record of a user, so a
-- write through `byID` is seen through `byEmail`: the records live in a heap under addresses.
pub mod Coherence
use auth_service.Prelude.{
  ℕ, suc, ◌+◌, Text, Option, none, some, List, [], ◌∷◌, eqb, length, if◌then◌else◌, Bool, true,
  false,
}
use auth_service.Prelude.Heaps.{load, store}
use auth_service.Prelude.Maps.{Map, lookup, insert}
use auth_service.Models.{User, Stamp}
use auth_service.Ports.{Error, Result, ok, err, user_not_found, user_already_exists, UserStore}

abbrev pub Heap : Type 0
Heap = List User

pub record Users : Type 0 where
  pub heap : Heap
  pub by_id : Map ℕ
  pub by_email : Map ℕ

-- NewUserStore
abbrev pub new_user_store : Users
new_user_store = record { heap = []; by_id = []; by_email = [] }

-- The record behind an entry of a map.
abbrev pub deref : Heap → Option ℕ → Option User
deref h none = none
deref h (some p) = load p h

-- (*UserStore).Create
unfoldable pub create : Stamp → Text → Text → Users → Result Error User × Users
create t email password_hash s = elim (lookup email s.by_email) [
  | some p ↦ (err user_already_exists, s)
  | none ↦
      let u : User = record {
        id = t.uuid;
        email = email;
        password_hash = password_hash;
        created_at = t.now;
        updated_at = t.later;
      } in
      let p : ℕ = length s.heap in
      (
        ok u,
        record {
          heap = u ∷ s.heap;
          by_id = insert t.uuid p s.by_id;
          by_email = insert email p s.by_email;
        },
      )
]

abbrev found : Option User → Result Error User
found none = err user_not_found
found (some u) = ok u

-- (*UserStore).GetByEmail
unfoldable pub get_by_email : Text → Users → Result Error User × Users
get_by_email email s = (found (deref s.heap (lookup email s.by_email)), s)

-- (*UserStore).GetByID
unfoldable pub get_by_id : Text → Users → Result Error User × Users
get_by_id id s = (found (deref s.heap (lookup id s.by_id)), s)

abbrev write_hash : Stamp → Text → Users → ℕ → Option User → Result Error (Unit {0}) × Users
write_hash t password_hash s p none = (err user_not_found, s)
write_hash t password_hash s p (some u) = (
  ok tt,
  record s {
    heap = store p (record u { password_hash = password_hash; updated_at = t.now }) s.heap;
  },
)

-- (*UserStore).UpdatePasswordHash
unfoldable pub update_password_hash : Stamp → Text → Text → Users → Result Error (Unit {0}) × Users
update_password_hash t user_id password_hash s = elim (lookup user_id s.by_id) [
  | none ↦ (err user_not_found, s)
  | some p ↦ write_hash t password_hash s p (load p s.heap)
]

abbrev pub user_store : UserStore Users
user_store = record {
  create = create;
  get_by_email = get_by_email;
  get_by_id = get_by_id;
  update_password_hash = update_password_hash;
}
