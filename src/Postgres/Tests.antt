-- ===== src/Postgres/Tests.antt =====
-- The repositories over a server in memory that never fails.
use auth_service.Prelude.{
  List, ◌≡◌, ◌↔◌, inr, refl, Text, none, some, [], ◌∷◌, bytes, eqb, length, if◌then◌else◌,
}
use auth_service.Prelude.Lists.{◌==◌}
use auth_service.Models.{User, Session, Stamp}
use auth_service.Ports.{Result, ok, err, session_not_found}
use auth_service.Ports.Laws.{listed, is_other}
use auth_service.Postgres.{Tables, DbError, Pool}
use auth_service.Postgres.Connection.{PoolLaws}
use auth_service.Postgres.Rows.{row_of, delete_rows, select_rows}
use auth_service.Postgres.Sessions.{
  is_user_id, insert_session, delete_sessions, commit_rotation, insert_rotated, rotate_in,
  rotate_token, delete_all_by_user_id_except,
}
use auth_service.Postgres.Rows.Selection.{Mem}
use auth_service.Postgres.Sessions.{place, order_rows, select_sessions, list_by_user_id}
use auth_service.Postgres.Sessions.Listing.{LatestFirst, list_by_user_id_lists}
use auth_service.Postgres.Sessions.Statements.{owner, Sound}
use auth_service.Postgres.Sessions.Rotation.{Rotates, rotate_token-Rotates}
use auth_service.Postgres.Sessions.Implements.Many.{delete_others_ok}

-- A UUID has one character here; a transaction is the tables as it sees them.
abbrev pool : Pool Tables
pool = record {
  query = λ {A} f k. f k;
  Tx = Tables;
  begin = λ k. (ok k, k);
  tx_query = λ {A} f tx. f tx;
  commit = λ tx k. (ok tt, tx);
  rollback = λ tx k. k;
  is_uuid = λ s. eqb (length s) 1;
}

begun : (k tx : Tables) → ◌≡◌ {A = Result DbError Tables} (ok k) (ok tx) → tx ≡ k
begun k tx e = cc

abbrev laws : PoolLaws pool
laws = record {
  tables = λ k. k;
  seen = λ tx. tx;
  query_ok = λ {A} f k a e. λ i. (e i, (f k).1);
  query_only = λ {A} f k. inr refl;
  begin_only = λ k. refl;
  begin_ok = λ k tx e. begun k tx e;
  tx_ok = λ {A} f tx a e. λ i. (e i, (f tx).1);
  commit_ok = λ tx k e. refl;
  commit_only = λ tx k. inr refl;
  rollback_only = λ tx k. refl;
}

abbrev session_of : Text → Text → Text → Session
session_of id user_id token_hash = record {
  id = id;
  user_id = user_id;
  user_email = [];
  token_hash = token_hash;
  device_id = [];
  user_agent = [];
  ip_address = [];
  expires_at = 50;
  last_used_at = 1;
  created_at = 1;
}

abbrev user_of : Text → User
user_of id = record {
  id = id;
  email = bytes "ann@example.com";
  password_hash = [];
  created_at = 0;
  updated_at = 0;
}

abbrev three : Tables
three = record {
  users = user_of (bytes "u") ∷ [];
  sessions =
      session_of (bytes "1") (bytes "u") (bytes "old")
      ∷ session_of (bytes "2") (bytes "u") (bytes "kept")
      ∷ session_of (bytes "3") (bytes "v") (bytes "theirs")
      ∷ [];
  audit_events = [];
}

abbrev stamp : Stamp
stamp = record { now = 5; later = 6; uuid = bytes "4"; entropy = λ k. none }

three-Sound : Sound three
unfolding row_of ◌==◌
three-Sound = record {
  by_hash = (refl, (refl, (refl, tt)));
  by_id = (refl, (refl, (refl, tt)));
  named = refl;
}

rotated_hashes :
    owner
      (bytes "new")
      (rotate_token pool stamp (bytes "old") (session_of [] (bytes "u") (bytes "new")) three).1
    ≡ some (bytes "u")
unfolding owner row_of rotate_token rotate_in insert_rotated commit_rotation delete_sessions
    delete_rows select_rows insert_session is_user_id ◌==◌
rotated_hashes = refl

-- A hash that another session has: the insertion is refused and the old session stays.
taken :
    rotate_token pool stamp (bytes "old") (session_of [] (bytes "u") (bytes "kept")) three
    ≡ (err (auth_service.Ports.other (bytes "create new session")), three)
unfolding row_of rotate_token rotate_in insert_rotated commit_rotation delete_sessions delete_rows
    select_rows insert_session is_user_id ◌==◌
taken = refl

rotate_token-Rotates_example :
    Rotates stamp
      (bytes "old")
      (session_of [] (bytes "u") (bytes "new"))
      pool
      laws
      three
      (rotate_token pool stamp (bytes "old") (session_of [] (bytes "u") (bytes "new")) three)
rotate_token-Rotates_example =
    rotate_token-Rotates stamp (bytes "old") (session_of [] (bytes "u") (bytes "new")) pool laws
      three three-Sound

others_deleted :
    (delete_all_by_user_id_except pool (bytes "u") (bytes "kept") three).0 ≡ ok (bytes "old" ∷ [])
unfolding delete_all_by_user_id_except delete_sessions delete_rows select_rows ◌==◌
others_deleted = refl

delete_others_ok_example :
    (listed (bytes "old") (bytes "old" ∷ [])
      ≡ is_other (bytes "u") (bytes "kept") (bytes "old") (owner (bytes "old") three))
    × (owner (bytes "old") (delete_all_by_user_id_except pool (bytes "u") (bytes "kept") three).1
        ≡ (if is_other (bytes "u") (bytes "kept") (bytes "old") (owner (bytes "old") three)
            then none
            else owner (bytes "old") three))
delete_others_ok_example =
    delete_others_ok pool laws (bytes "u") (bytes "kept") (bytes "old" ∷ []) three (bytes "old")
      three-Sound others_deleted

abbrev users_sessions : List Session
users_sessions =
    session_of (bytes "1") (bytes "u") (bytes "old")
    ∷ session_of (bytes "2") (bytes "u") (bytes "kept")
    ∷ []

users_listed : (list_by_user_id pool (bytes "u") three).0 ≡ ok users_sessions
unfolding list_by_user_id select_sessions order_rows place select_rows ◌==◌
users_listed = refl

list_by_user_id_lists_example :
    LatestFirst users_sessions
    × ((z : Session) → Mem z users_sessions ↔ (Mem z three.sessions × (z.user_id ≡ bytes "u")))
list_by_user_id_lists_example =
    list_by_user_id_lists pool laws (bytes "u") three users_sessions users_listed
