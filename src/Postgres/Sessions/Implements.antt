-- ===== src/Postgres/Sessions/Implements.antt =====
-- internal/adapters/storage/postgres/session.go: the repository keeps the laws of
-- ports.SessionStore, over a connection that keeps its own.
pub mod Single
pub mod Many
use auth_service.Prelude.Lists.{◌==◌}
use auth_service.Prelude.{
  ◌≡◌, ◌≢◌, ◌⊎◌, inl, inr, refl, sym, ap, ◌∙◌, subst, Text, Option, none, some, List, [], ◌∷◌, Bool,
  true, false, ◌&&◌, not, eq_iff, eq_refl, if◌then◌else◌, arith, Bool-cases, Option-cases, bytes,
}
use auth_service.Models.{Session, Stamp}
use auth_service.Ports.{Error, Result, ok, err}
use auth_service.Ports.Laws.{SessionLaws, listed, is_user, is_other}
use auth_service.Postgres.{Tables, DbError, Statement, Pool, first_row, with_uuid}
use auth_service.Postgres.Connection.{
  PoolLaws, with_uuid-keeps, with_uuid-ok, query-keeps, query-row, first_row-ok,
}
use auth_service.Postgres.Rows.{row_of, Unique}
use auth_service.Postgres.Rows.Selection.{passes}
use auth_service.Postgres.Sessions.{
  insert_session, delete_sessions, select_session, select_sessions, email_of, joined, not_found_or,
  map_error, with_error, unit_of, scanned, create, get_by_token_hash, delete_by_id,
  delete_by_token_hash, delete_all_by_user_id, delete_all_by_user_id_except, list_by_user_id,
  rotate_token, session_repository,
}
use auth_service.Postgres.Sessions.Statements.{
  hash_of, id_of, owner, owner-row, owner-absent, Sound, delete_sessions-first, passes-user,
  passes-hash, passes-other, passes-id, insert_session-Sound, owner-insert_session,
  owner-insert_only,
}
use auth_service.Postgres.Sessions.Deletion.{
  map_error-ok, scanned-ok, unit_of-ok, IsValid, IsFresh, owner_of, deletion, deletion-Sound,
  deletion-only, deletion-ok, deletion-owner,
}
use auth_service.Postgres.Sessions.Rotation.{
  Replaced, Replaced-Sound, owner-rotated, rotate_token-Rotates,
}
use auth_service.Postgres.Sessions.Implements.Single.{
  create-IsValid, create_only, create_ok, get-IsValid, owner-get, get_ok, delete_id-IsValid,
  delete_id_only, delete_id_ok, delete_hash-IsValid, delete_hash_only, delete_hash_ok,
}
use auth_service.Postgres.Sessions.Implements.Many.{
  delete_all-IsValid, delete_all_only, delete_all_ok, delete_others-IsValid, delete_others_only,
  delete_others_ok, list-IsValid, owner-list,
}

module _ {K : Type 0} (p : Pool K) (laws : PoolLaws p) where
  open laws use {tables, query_ok}

  pub rotate-IsValid :
      (t : Stamp) (h : Text) (x : Session) (k : K)
      → IsValid p laws k
      → IsFresh p laws t x k
      → IsValid p laws (rotate_token p t h x k).1
  rotate-IsValid t h x k v f = elim (rotate_token-Rotates t h x p laws k v).0 [
    | inl e ↦ subst Sound (sym e) v
    | inr r ↦ Replaced-Sound t h x (tables k) _ v f.1 r
  ]

  pub rotate_ok :
      (t : Stamp) (h : Text) (x y : Session) (k : K) (j : Text)
      → IsValid p laws k
      → (rotate_token p t h x k).0 ≡ ok y
      → (owner_of p laws h k ≢ none)
        × (owner_of p laws j (rotate_token p t h x k).1 ≡ (
            if x.token_hash == j
            then some x.user_id
            else if h == j
            then none
            else owner_of p laws j k))
  rotate_ok t h x y k j v e =
      let (found, (z, (zs, i))) = (rotate_token-Rotates t h x p laws k v).1 y e in
      (found, owner-rotated t h x (tables k) _ z zs j v i)

  pub rotate_only :
      (t : Stamp) (h : Text) (x : Session) (k : K) (j u : Text)
      → IsValid p laws k
      → owner_of p laws j (rotate_token p t h x k).1 ≡ some u
      → (owner_of p laws j k ≡ some u)
        ⊎ ((owner_of p laws h k ≢ none) × (x.token_hash ≡ j) × (x.user_id ≡ u))
  rotate_only t h x k j u v e = elim (rotate_token-Rotates t h x p laws k v).0 [
    | inl s ↦ inl (ap (owner j) (sym s) ∙ e)
    | inr (found, (z, (zs, i))) ↦
        let o = sym (owner-rotated t h x (tables k) _ z zs j v i) ∙ e in
        elim (Bool-cases (x.token_hash == j)) [
          | inl m ↦ inr (found, (eq_iff x.token_hash j).0 m, ground arith)
          | inr m ↦ inl (ground arith)
        ]
  ]

  pub fresh_hash :
      (t : Stamp) (x : Session) (k : K)
      → IsFresh p laws t x k
      → owner_of p laws x.token_hash k ≡ none
  fresh_hash t x k f = f.0

  -- The laws, with the view that the tables give.
  abbrev pub repository_laws : SessionLaws (session_repository p)
  repository_laws = record {
    IsValid = IsValid p laws;
    IsFresh = IsFresh p laws;
    owner = owner_of p laws;
    fresh_hash = fresh_hash;
    create_valid = create-IsValid p laws;
    create_only = create_only p laws;
    create_ok = create_ok p laws;
    get_valid = get-IsValid p laws;
    get_owner = owner-get p laws;
    get_ok = get_ok p laws;
    delete_id_valid = delete_id-IsValid p laws;
    delete_id_only = delete_id_only p laws;
    delete_id_ok = delete_id_ok p laws;
    delete_hash_valid = delete_hash-IsValid p laws;
    delete_hash_only = delete_hash_only p laws;
    delete_hash_ok = delete_hash_ok p laws;
    rotate_valid = rotate-IsValid;
    rotate_only = rotate_only;
    rotate_ok = rotate_ok;
    delete_all_valid = delete_all-IsValid p laws;
    delete_all_only = delete_all_only p laws;
    delete_all_ok = delete_all_ok p laws;
    delete_others_valid = delete_others-IsValid p laws;
    delete_others_only = delete_others_only p laws;
    delete_others_ok = delete_others_ok p laws;
    list_valid = list-IsValid p laws;
    list_owner = owner-list p laws;
  }
