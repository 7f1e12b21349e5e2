-- ===== src/Postgres.antt =====
-- What the program uses of PostgreSQL and of github.com/jackc/pgx, which it does not implement. The
-- tables are those of migrations/*.up.sql; a statement is what its SQL does to them.
pub mod Rows
pub mod Connection
pub mod Users
pub mod Sessions
pub mod Audit
pub mod Tests
use auth_service.Prelude.{ℕ, ◌-◌, ◌%◌, Option, Text, List, [], ◌∷◌, bytes, Bool, true, false}
use auth_service.Models.{User, Session}
use auth_service.Ports.{Result, ok, err}

-- A row of audit_events, without its ID and time.
pub record AuditRow : Type 0 where
  pub user_id : Option Text
  pub event_type : Text
  pub ip_address : Text
  pub user_agent : Text
  pub metadata : Option Text

-- The rows of each table; `user_email` of a session row is empty, as the table has no such column.
pub record Tables : Type 0 where
  pub users : List User
  pub sessions : List Session
  pub audit_events : List AuditRow

-- pgx.ErrNoRows, a *pgconn.PgError with its code, and a lost or refused connection
pub data DbError : Type 0 where
  no_rows : DbError
  pg_error : Text → DbError
  failure : Text → DbError

-- What a statement returns: an error of the server leaves the tables as they were.
abbrev pub Statement : Type 0 → Type 0
Statement A = Tables → Result DbError A × Tables

-- *pgxpool.Pool and pgx.Tx over a server whose states are `K`.
pub record Pool (K : Type 0) : Type 1 where
  -- one statement by itself: Exec, Query and QueryRow
  pub query : {A : Type 0} → Statement A → K → Result DbError A × K
  pub Tx : Type 0
  pub begin : K → Result DbError Tx × K
  pub tx_query : {A : Type 0} → Statement A → Tx → Result DbError A × Tx
  pub commit : Tx → K → Result DbError (Unit {0}) × K
  pub rollback : Tx → K → K
  -- whether a text is a UUID in the form in which the server writes them; in another form, which the
  -- server reads too, a text counts as none here
  pub is_uuid : Text → Bool

-- TIMESTAMPTZ keeps microseconds.
abbrev pub microseconds : ℕ → ℕ
microseconds t = t - t % 1000

-- QueryRow(…).Scan(…): the first row
abbrev pub first_row : {A : Type 0} → Result DbError (List A) → Result DbError A
first_row (ok []) = err no_rows
first_row (ok (x ∷ xs)) = ok x
first_row (err e) = err e

-- A parameter of type UUID, whose text has to be one.
abbrev pub with_uuid : {A : Type 0} → Bool → Statement A → Statement A
with_uuid true f ts = f ts
with_uuid false f ts = (err (pg_error (bytes "22P02")), ts)
