-- ===== src/Postgres/Users.antt =====
-- internal/adapters/storage/postgres/user.go: the repository, with the SQL of each operation.
use auth_service.Prelude.{ℕ, Text, Option, none, some, List, [], ◌∷◌, bytes, ◌==◌, if◌then◌else◌}
use auth_service.Models.{User, Stamp}
use auth_service.Ports.{
  Error, other, user_not_found, user_already_exists, Result, ok, err, UserStore,
}
use auth_service.Postgres.{
  microseconds, DbError, no_rows, pg_error, failure, Statement, Pool, with_uuid,
}
use auth_service.Postgres.Rows.{row_of}

abbrev pub email_of : User → Text
email_of u = u.email

abbrev pub id_of : User → Text
id_of u = u.id

-- INSERT INTO users (email, password_hash) VALUES ($1, $2) RETURNING …, where the ID and the times are
-- defaults and email is UNIQUE
unfoldable pub insert_user : Stamp → Text → Text → Statement (List User)
unfolding row_of
insert_user t email password_hash ts =
    let u : User = record {
      id = t.uuid;
      email = email;
      password_hash = password_hash;
      created_at = microseconds t.now;
      updated_at = microseconds t.now;
    } in
    elim (row_of email_of email ts.users) [
      | some v ↦ (err (pg_error (bytes "23505")), ts)
      | none ↦ elim (row_of id_of t.uuid ts.users) [
        | some v ↦ (err (pg_error (bytes "23505")), ts)
        | none ↦ (ok (u ∷ []), record ts { users = u ∷ ts.users })
      ]
    ]

abbrev pub rows_of : Option User → List User
rows_of none = []
rows_of (some u) = u ∷ []

-- SELECT … FROM users WHERE email = $1
unfoldable pub select_by_email : Text → Statement (List User)
unfolding row_of
select_by_email email ts = (ok (rows_of (row_of email_of email ts.users)), ts)

-- SELECT … FROM users WHERE id = $1
unfoldable pub select_by_id : Text → Statement (List User)
unfolding row_of
select_by_id id ts = (ok (rows_of (row_of id_of id ts.users)), ts)

-- SET password_hash = $2, updated_at = now() on the rows of the ID
unfoldable pub write_hashes : ℕ → Text → Text → List User → List User
write_hashes now id password_hash [] = []
write_hashes now id password_hash (u ∷ us) =
    let rest = write_hashes now id password_hash us in
    if u.id == id
    then record u { password_hash = password_hash; updated_at = now } ∷ rest
    else u ∷ rest

-- UPDATE users SET … WHERE id = $1: the rows that it affects
unfoldable pub update_user : Stamp → Text → Text → Statement (List User)
unfolding row_of write_hashes
update_user t id password_hash ts = (
  ok (rows_of (row_of id_of id ts.users)),
  record ts { users = write_hashes (microseconds t.now) id password_hash ts.users },
)

-- The error of Create: 23505 is a violation of UNIQUE
abbrev pub create_error : DbError → Error
create_error no_rows = other (bytes "create user")
create_error (pg_error code) =
    if code == bytes "23505" then user_already_exists else other (bytes "create user")
create_error (failure m) = other (bytes "create user")

abbrev pub get_error : Text → DbError → Error
get_error m no_rows = user_not_found
get_error m (pg_error code) = other m
get_error m (failure c) = other m

abbrev pub found : (DbError → Error) → Result DbError (List User) → Result Error User
found f (ok []) = err (f no_rows)
found f (ok (u ∷ us)) = ok u
found f (err e) = err (f e)

-- RowsAffected() == 0
abbrev pub affected : Result DbError (List User) → Result Error (Unit {0})
affected (ok []) = err user_not_found
affected (ok (u ∷ us)) = ok tt
affected (err e) = err (other (bytes "update password hash"))

module _ {K : Type 0} (p : Pool K) where
  -- (*UserRepository).Create
  unfoldable pub create : Stamp → Text → Text → K → Result Error User × K
  create t email password_hash k =
      let r = p.query (insert_user t email password_hash) k in (found create_error r.0, r.1)

  -- (*UserRepository).GetByEmail
  unfoldable pub get_by_email : Text → K → Result Error User × K
  get_by_email email k =
      let r = p.query (select_by_email email) k in
      (found (get_error (bytes "get user by email")) r.0, r.1)

  -- (*UserRepository).GetByID
  unfoldable pub get_by_id : Text → K → Result Error User × K
  get_by_id id k =
      let r = p.query (with_uuid (p.is_uuid id) (select_by_id id)) k in
      (found (get_error (bytes "get user by id")) r.0, r.1)

  -- (*UserRepository).UpdatePasswordHash
  unfoldable pub update_password_hash : Stamp → Text → Text → K → Result Error (Unit {0}) × K
  update_password_hash t user_id password_hash k =
      let r = p.query (with_uuid (p.is_uuid user_id) (update_user t user_id password_hash)) k in
      (affected r.0, r.1)

  -- NewUserRepository
  abbrev pub user_repository : UserStore K
  user_repository = record {
    create = create;
    get_by_email = get_by_email;
    get_by_id = get_by_id;
    update_password_hash = update_password_hash;
  }
