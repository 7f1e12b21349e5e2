-- ===== src/Postgres/Sessions.antt =====
-- internal/adapters/storage/postgres/session.go: the repository, with the SQL of each operation.
pub mod Statements
pub mod Deletion
pub mod Rotation
pub mod Implements
pub mod Listing
use auth_service.Prelude.{
  ◌-◌, ◌%◌, ℕ, Text, Option, none, some, List, [], ◌∷◌, ◌++◌, bytes, map, leb, ltb, length, eqb,
  ◌==◌, ◌&&◌, not, Bool, true, false, if◌then◌else◌,
}
use auth_service.Models.{User, Session, Stamp}
use auth_service.Ports.{Error, other, session_not_found, Result, ok, err, SessionStore}
use auth_service.Postgres.{
  microseconds, Tables, DbError, no_rows, pg_error, failure, Statement, Pool, first_row, with_uuid,
}
use auth_service.Postgres.Rows.{row_of, delete_rows, select_rows}

-- Whether there is a user with this ID: REFERENCES users (id)
unfoldable pub is_user_id : Text → List User → Bool
is_user_id i [] = false
is_user_id i (u ∷ us) = let rest = is_user_id i us in if u.id == i then true else rest

abbrev is_absent : Option Session → Bool
is_absent none = true
is_absent (some x) = false

-- The row that INSERT INTO sessions (…) VALUES (…) makes: the ID and the times of creation and last
-- use are defaults.
abbrev pub inserted : Stamp → Session → Session
inserted t x = record {
  id = t.uuid;
  user_id = x.user_id;
  user_email = [];
  token_hash = x.token_hash;
  device_id = x.device_id;
  user_agent = x.user_agent;
  ip_address = x.ip_address;
  expires_at = microseconds x.expires_at;
  last_used_at = microseconds t.now;
  created_at = microseconds t.now;
}

-- INSERT INTO sessions (…) VALUES (…) RETURNING id, created_at, last_used_at
unfoldable pub insert_session : Stamp → Session → Statement (List Session)
unfolding row_of is_user_id
insert_session t x ts =
    let y = inserted t x in
    if is_user_id x.user_id ts.users
    then (if is_absent (row_of (λ r. r.id) t.uuid ts.sessions)
          && is_absent (row_of (λ r. r.token_hash) x.token_hash ts.sessions)
        then (ok (y ∷ []), record ts { sessions = y ∷ ts.sessions })
        else (err (pg_error (bytes "23505")), ts))
    else (err (pg_error (bytes "23503")), ts)

-- DELETE FROM sessions WHERE … RETURNING token_hash
unfoldable pub delete_sessions : (Session → Bool) → Statement (List Text)
unfolding delete_rows select_rows
delete_sessions p ts = (
  ok (map (λ x. x.token_hash) (select_rows p ts.sessions)),
  record ts { sessions = delete_rows p ts.sessions },
)

-- The address of the user with this ID.
unfoldable pub email_of : Text → List User → Option Text
email_of i [] = none
email_of i (u ∷ us) = let rest = email_of i us in if u.id == i then some u.email else rest

abbrev joined : List User → Option Session → List Session
joined us none = []
joined us (some x) = elim (email_of x.user_id us) [
  | none ↦ []
  | some e ↦ record x { user_email = e } ∷ []
]

-- SELECT … FROM sessions s JOIN users u ON u.id = s.user_id WHERE s.token_hash = $1
unfoldable pub select_session : Text → Statement (List Session)
unfolding row_of email_of
select_session h ts = (ok (joined ts.users (row_of (λ r. r.token_hash) h ts.sessions)), ts)

-- A row before the ones that were used less recently.
unfoldable pub place : Session → List Session → List Session
place x [] = x ∷ []
place x (y ∷ ys) =
    let rest = place x ys in if leb y.last_used_at x.last_used_at then x ∷ (y ∷ ys) else y ∷ rest

-- ORDER BY last_used_at DESC
unfoldable pub order_rows : List Session → List Session
unfolding place
order_rows [] = []
order_rows (x ∷ xs) = place x (order_rows xs)

-- SELECT … FROM sessions WHERE user_id = $1 ORDER BY last_used_at DESC
unfoldable pub select_sessions : Text → Statement (List Session)
unfolding order_rows select_rows
select_sessions u ts = (ok (order_rows (select_rows (λ x. x.user_id == u) ts.sessions)), ts)

-- errors.Is(err, pgx.ErrNoRows)
abbrev pub not_found_or : Text → DbError → Error
not_found_or m no_rows = session_not_found
not_found_or m (pg_error c) = other m
not_found_or m (failure c) = other m

abbrev pub map_error : {A : Type 0} → (DbError → Error) → Result DbError A → Result Error A
map_error f (ok a) = ok a
map_error f (err e) = err (f e)

abbrev pub with_error : Text → DbError → Error
with_error m e = other m

abbrev pub unit_of : {A : Type 0} → Result Error A → Result Error (Unit {0})
unit_of (ok a) = ok tt
unit_of (err e) = err e

-- What a new session gets back from the row that was inserted for it.
abbrev pub scanned : Session → Result Error Session → Result Error Session
scanned x (ok y) =
    ok (record x { id = y.id; created_at = y.created_at; last_used_at = y.last_used_at })
scanned x (err e) = err e

module _ {K : Type 0} (p : Pool K) where
  -- (*SessionRepository).Create
  unfoldable pub create : Stamp → Session → K → Result Error Session × K
  create t x k =
      let r = p.query (with_uuid (p.is_uuid x.user_id) (insert_session t x)) k in
      (scanned x (map_error (with_error (bytes "create")) (first_row r.0)), r.1)

  -- (*SessionRepository).GetByTokenHash
  unfoldable pub get_by_token_hash : Stamp → Text → K → Result Error Session × K
  get_by_token_hash t h k =
      let r = p.query (select_session h) k in
      (map_error (not_found_or (bytes "get session by token hash")) (first_row r.0), r.1)

  -- (*SessionRepository).DeleteByID
  unfoldable pub delete_by_id : Text → Text → K → Result Error Text × K
  delete_by_id id u k =
      let r =
        p.query
          (with_uuid (p.is_uuid id && p.is_uuid u)
            (delete_sessions (λ x. x.id == id && x.user_id == u)))
          k in
      (map_error (not_found_or (bytes "delete session")) (first_row r.0), r.1)

  -- (*SessionRepository).DeleteByTokenHash
  unfoldable pub delete_by_token_hash : Text → K → Result Error (Unit {0}) × K
  delete_by_token_hash h k =
      let r = p.query (delete_sessions (λ x. x.token_hash == h)) k in
      (unit_of (map_error (with_error (bytes "delete session by token hash")) r.0), r.1)

  -- RotateToken once the new row is inserted: Commit, then the deferred Rollback
  unfoldable pub commit_rotation : Session → p.Tx → K → Result Error Session × K
  commit_rotation y tx k =
      let c = p.commit tx k in
      (elim c.0 [ ok _ ↦ ok y | err e ↦ err (other (bytes "commit")) ], p.rollback tx c.1)

  -- RotateToken once the old row is deleted
  unfoldable pub insert_rotated : Stamp → Session → p.Tx → K → Result Error Session × K
  unfolding commit_rotation
  insert_rotated t x tx k =
      let r = p.tx_query (with_uuid (p.is_uuid x.user_id) (insert_session t x)) tx in
      elim (scanned x (map_error (with_error (bytes "create new session")) (first_row r.0))) [
        | err e ↦ (err e, p.rollback r.1 k)
        | ok y ↦ commit_rotation y r.1 k
      ]

  -- RotateToken in its transaction: RowsAffected is the number of rows deleted
  unfoldable pub rotate_in : Stamp → Text → Session → p.Tx → K → Result Error Session × K
  unfolding insert_rotated
  rotate_in t h x tx k =
      let r = p.tx_query (delete_sessions (λ y. y.token_hash == h)) tx in
      elim r.0 [
        | err e ↦ (err (other (bytes "delete old session")), p.rollback r.1 k)
        | ok [] ↦ (err session_not_found, p.rollback r.1 k)
        | ok (g ∷ gs) ↦ insert_rotated t x r.1 k
      ]

  -- (*SessionRepository).RotateToken
  unfoldable pub rotate_token : Stamp → Text → Session → K → Result Error Session × K
  unfolding rotate_in
  rotate_token t h x k =
      let b = p.begin k in
      elim b.0 [ err e ↦ (err (other (bytes "begin tx")), b.1) | ok tx ↦ rotate_in t h x tx b.1 ]

  -- (*SessionRepository).DeleteAllByUserID
  unfoldable pub delete_all_by_user_id : Text → K → Result Error (List Text) × K
  delete_all_by_user_id u k =
      let r = p.query (with_uuid (p.is_uuid u) (delete_sessions (λ x. x.user_id == u))) k in
      (map_error (with_error (bytes "delete all sessions")) r.0, r.1)

  -- (*SessionRepository).DeleteAllByUserIDExcept: without a hash to keep, all are deleted
  unfoldable pub delete_all_by_user_id_except : Text → Text → K → Result Error (List Text) × K
  delete_all_by_user_id_except u keep k =
      let r =
        p.query
          (with_uuid (p.is_uuid u) (
            if keep == []
            then delete_sessions (λ x. x.user_id == u)
            else delete_sessions (λ x. x.user_id == u && not (x.token_hash == keep))))
          k in
      (map_error (with_error (bytes "delete sessions except one")) r.0, r.1)

  -- (*SessionRepository).ListByUserID
  unfoldable pub list_by_user_id : Text → K → Result Error (List Session) × K
  list_by_user_id u k =
      let r = p.query (with_uuid (p.is_uuid u) (select_sessions u)) k in
      (map_error (with_error (bytes "list sessions")) r.0, r.1)

  -- NewSessionRepository
  abbrev pub session_repository : SessionStore K
  session_repository = record {
    create = create;
    get_by_token_hash = get_by_token_hash;
    delete_by_id = delete_by_id;
    delete_by_token_hash = delete_by_token_hash;
    rotate_token = rotate_token;
    delete_all_by_user_id = delete_all_by_user_id;
    delete_all_by_user_id_except = delete_all_by_user_id_except;
    list_by_user_id = list_by_user_id;
  }
