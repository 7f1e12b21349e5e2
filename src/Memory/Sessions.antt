-- ===== src/Memory/Sessions.antt =====
-- internal/adapters/storage/memory/session.go. `byID` and `byHash` hold pointers to one record of
-- a session, so the time of use that a lookup by hash writes is seen through `byID`.
pub mod Invariant
pub mod Owner
pub mod Loop
pub mod ByIds
pub mod Single
pub mod Many
pub mod Implements
pub mod TakenOut
use auth_service.Prelude.{
  ℕ, Text, Option, none, some, List, [], ◌∷◌, length, if◌then◌else◌, Bool, true, false, ◌==◌, ◌&&◌,
  not,
}
use auth_service.Prelude.Heaps.{load, store}
use auth_service.Prelude.Maps.{Map, lookup, insert, delete}
use auth_service.Models.{Session, Stamp}
use auth_service.Ports.{Error, Result, ok, err, session_not_found, SessionStore}

abbrev pub Heap : Type 0
Heap = List Session

pub record Sessions : Type 0 where
  pub heap : Heap
  pub by_id : Map ℕ
  pub by_hash : Map ℕ

-- NewSessionStore
abbrev pub new_session_store : Sessions
new_session_store = record { heap = []; by_id = []; by_hash = [] }

-- A map's entry with the record that it points to.
abbrev pub deref : Heap → Option ℕ → Option (ℕ × Session)
deref h none = none
deref h (some p) = elim (load p h) [ none ↦ none | some x ↦ some (p, x) ]

-- s.byHash[hash], dereferenced
unfoldable pub find_by_hash : Text → Sessions → Option (ℕ × Session)
find_by_hash hash s = deref s.heap (lookup hash s.by_hash)

-- s.byID[id], dereferenced
unfoldable pub find_by_id : Text → Sessions → Option (ℕ × Session)
find_by_id id s = deref s.heap (lookup id s.by_id)

-- The session as it is stored: a given ID is kept, both times are the present.
abbrev pub filled : Stamp → Session → Session
filled t x = record x {
  id = if x.id == [] then t.uuid else x.id;
  created_at = t.now;
  last_used_at = t.now;
}

-- s.byID[x.ID] = &cp; s.byHash[x.TokenHash] = &cp
unfoldable pub put : Session → Sessions → Sessions
put x s =
    let p : ℕ = length s.heap in
    record {
      heap = x ∷ s.heap;
      by_id = insert x.id p s.by_id;
      by_hash = insert x.token_hash p s.by_hash;
    }

-- delete(s.byID, id); delete(s.byHash, hash)
unfoldable pub drop : Text → Text → Sessions → Sessions
drop id hash s = record s { by_id = delete id s.by_id; by_hash = delete hash s.by_hash }

-- (*SessionStore).Create
unfoldable pub create : Stamp → Session → Sessions → Result Error Session × Sessions
create t x s = (ok (filled t x), put (filled t x) s)

-- (*SessionStore).GetByTokenHash
unfoldable pub get_by_token_hash : Stamp → Text → Sessions → Result Error Session × Sessions
get_by_token_hash t hash s = elim (find_by_hash hash s) [
  | none ↦ (err session_not_found, s)
  | some (p, x) ↦
      let used : Session = record x { last_used_at = t.now } in
      (ok used, record s { heap = store p used s.heap })
]

-- (*SessionStore).DeleteByID
unfoldable pub delete_by_id : Text → Text → Sessions → Result Error Text × Sessions
delete_by_id session_id user_id s = elim (find_by_id session_id s) [
  | none ↦ (err session_not_found, s)
  | some (p, x) ↦
      if x.user_id == user_id
      then (ok x.token_hash, drop session_id x.token_hash s)
      else (err session_not_found, s)
]

-- (*SessionStore).DeleteByTokenHash
unfoldable pub delete_by_token_hash : Text → Sessions → Result Error (Unit {0}) × Sessions
delete_by_token_hash hash s = elim (find_by_hash hash s) [
  | none ↦ (ok tt, s)
  | some (p, x) ↦ (ok tt, drop x.id hash s)
]

-- (*SessionStore).RotateToken
unfoldable pub rotate_token : Stamp → Text → Session → Sessions → Result Error Session × Sessions
rotate_token t old_hash x s = elim (find_by_hash old_hash s) [
  | none ↦ (err session_not_found, s)
  | some (p, old) ↦ (ok (filled t x), put (filled t x) (drop old.id old_hash s))
]

-- The body of the two deletion loops: `range s.byID`, with a test on the session.
unfoldable pub delete_where : (Session → Bool) → Map ℕ → Sessions → List Text × Sessions
delete_where test [] s = ([], s)
delete_where test ((id, p) ∷ entries) s = elim (load p s.heap) [
  | none ↦ delete_where test entries s
  | some x ↦ elim (test x) [
    | true ↦
        let rest = delete_where test entries (drop id x.token_hash s) in
        (x.token_hash ∷ rest.0, rest.1)
    | false ↦ delete_where test entries s
  ]
]

-- (*SessionStore).DeleteAllByUserID
unfoldable pub delete_all_by_user_id : Text → Sessions → Result Error (List Text) × Sessions
delete_all_by_user_id user_id s =
    let r = delete_where (λ x. x.user_id == user_id) s.by_id s in (ok r.0, r.1)

-- (*SessionStore).DeleteAllByUserIDExcept
unfoldable pub delete_all_by_user_id_except :
    Text → Text → Sessions → Result Error (List Text) × Sessions
delete_all_by_user_id_except user_id keep s =
    let r = delete_where (λ x. x.user_id == user_id && not (x.token_hash == keep)) s.by_id s in
    (ok r.0, r.1)

-- The loop of ListByUserID over the entries of `byID`.
unfoldable pub collect : Text → Heap → Map ℕ → List Session
collect user_id h [] = []
collect user_id h ((id, p) ∷ entries) =
    let rest = collect user_id h entries in
    elim (load p h) [ none ↦ rest | some x ↦ if x.user_id == user_id then x ∷ rest else rest ]

-- (*SessionStore).ListByUserID
unfoldable pub list_by_user_id : Text → Sessions → Result Error (List Session) × Sessions
list_by_user_id user_id s = (ok (collect user_id s.heap s.by_id), s)

abbrev pub session_store : SessionStore Sessions
session_store = record {
  create = create;
  get_by_token_hash = get_by_token_hash;
  delete_by_id = delete_by_id;
  delete_by_token_hash = delete_by_token_hash;
  rotate_token = rotate_token;
  delete_all_by_user_id = delete_all_by_user_id;
  delete_all_by_user_id_except = delete_all_by_user_id_except;
  list_by_user_id = list_by_user_id;
}
