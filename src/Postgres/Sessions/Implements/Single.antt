-- ===== src/Postgres/Sessions/Implements/Single.antt =====
-- internal/adapters/storage/postgres/session.go: the operations on one session keep the
-- laws of ports.SessionStore.
use auth_service.Prelude.Lists.{◌==◌}
use auth_service.Prelude.{
  ◌≡◌, ◌⊎◌, inl, inr, refl, sym, ap, ◌∙◌, subst, Text, Option, none, some, List, ◌∷◌, Bool, true,
  ◌&&◌, eq_iff, if◌then◌else◌, arith, Bool-cases, Option-cases, bytes,
}
use auth_service.Models.{Session, Stamp}
use auth_service.Ports.{Result, ok}
use auth_service.Postgres.{Tables, DbError, Pool, first_row, with_uuid}
use auth_service.Postgres.Connection.{
  PoolLaws, with_uuid-keeps, with_uuid-ok, query-keeps, query-row, first_row-ok,
}
use auth_service.Postgres.Rows.{row_of}
use auth_service.Postgres.Sessions.{
  insert_session, select_session, email_of, joined, not_found_or, with_error, create,
  get_by_token_hash, delete_by_id, delete_by_token_hash,
}
use auth_service.Postgres.Sessions.Statements.{
  hash_of, owner, owner-row, Sound, delete_sessions-first, passes-hash, passes-id,
  insert_session-Sound, owner-insert_session, owner-insert_only,
}
use auth_service.Postgres.Sessions.Deletion.{
  map_error-ok, scanned-ok, unit_of-ok, IsValid, IsFresh, owner_of, deletion, deletion-Sound,
  deletion-only, deletion-ok, deletion-owner,
}

module _ {K : Type 0} (p : Pool K) (laws : PoolLaws p) where
  open laws use {tables, query_ok}

  pub create-IsValid :
      (t : Stamp) (x : Session) (k : K)
      → IsValid p laws k
      → IsFresh p laws t x k
      → IsValid p laws (create p t x k).1
  unfolding create
  create-IsValid t x k v f =
      query-keeps p laws Sound (with_uuid (p.is_uuid x.user_id) (insert_session t x)) k v (
        with_uuid-keeps (p.is_uuid x.user_id) (insert_session t x) (tables k) Sound v
          (insert_session-Sound t x (tables k) v f.1))

  pub create_only :
      (t : Stamp) (x : Session) (k : K) (j u : Text)
      → IsValid p laws k
      → owner_of p laws j (create p t x k).1 ≡ some u
      → (owner_of p laws j k ≡ some u) ⊎ ((x.token_hash ≡ j) × (x.user_id ≡ u))
  unfolding create
  create_only t x k j u v =
      query-keeps p laws (Only u) (with_uuid (p.is_uuid x.user_id) (insert_session t x)) k inl (
        with_uuid-keeps (p.is_uuid x.user_id) (insert_session t x) (tables k) (Only u) inl
          (owner-insert_only t x (tables k) j u))
    where
      Only : Text → Tables → Type 0
      Only u ts =
          owner j ts ≡ some u
          → (owner j (tables k) ≡ some u) ⊎ ((x.token_hash ≡ j) × (x.user_id ≡ u))

  pub create_ok :
      (t : Stamp) (x y : Session) (k : K) (j : Text)
      → IsValid p laws k
      → (create p t x k).0 ≡ ok y
      → owner_of p laws j (create p t x k).1
        ≡ (if x.token_hash == j then some x.user_id else owner_of p laws j k)
  unfolding create
  create_ok t x y k j v e =
      let f = with_uuid (p.is_uuid x.user_id) (insert_session t x) in
      let (z, r) = scanned-ok x y (with_error (bytes "create")) (first_row (p.query f k).0) e in
      let (zs, s) = query-row p laws f k z r in
      let i = with_uuid-ok (p.is_uuid x.user_id) (insert_session t x) (tables k) (z ∷ zs) _ s in
      ap (λ w. owner j w.1) (sym i) ∙ owner-insert_session t x (tables k) j z zs (ap (λ w. w.0) i)

  get_tables : (h : Text) (k : K) → tables (p.query (select_session h) k).1 ≡ tables k
  unfolding select_session
  get_tables h k = query-keeps p laws (λ ts. ts ≡ tables k) (select_session h) k refl refl

  pub get-IsValid :
      (t : Stamp) (h : Text) (k : K)
      → IsValid p laws k
      → IsValid p laws (get_by_token_hash p t h k).1
  unfolding get_by_token_hash
  get-IsValid t h k v = subst Sound (sym (get_tables h k)) v

  pub owner-get :
      (t : Stamp) (h : Text) (k : K) (j : Text)
      → IsValid p laws k
      → owner_of p laws j (get_by_token_hash p t h k).1 ≡ owner_of p laws j k
  unfolding get_by_token_hash
  owner-get t h k j v = ap (owner j) (get_tables h k)

  pub get_ok :
      (t : Stamp) (h : Text) (x : Session) (k : K)
      → IsValid p laws k
      → (get_by_token_hash p t h k).0 ≡ ok x
      → owner_of p laws h k ≡ some x.user_id
  unfolding get_by_token_hash select_session
  get_ok t h x k v e =
      let r = map_error-ok (not_found_or (bytes "get session by token hash")) _ x e in
      let (xs, s) = query-row p laws (select_session h) k x r in
      by (row_of hash_of h (tables k).sessions) refl xs (ap (λ w. w.0) s)
    where
      by :
          (o : Option Session)
          → row_of hash_of h (tables k).sessions ≡ o
          → (xs : List Session)
          → ◌≡◌ {A = Result DbError (List Session)} (ok (joined (tables k).users o)) (ok (x ∷ xs))
          → owner h (tables k) ≡ some x.user_id
      by none e xs r = absurd (cc)
      by (some y) e xs r = elim (Option-cases (email_of y.user_id (tables k).users)) [
        | inl n ↦ absurd (ground arith)
        | inr (m, n) ↦ ground (arith, owner-row h (tables k) y e)
      ]

  pub delete_id-IsValid :
      (i u : Text) (k : K) → IsValid p laws k → IsValid p laws (delete_by_id p i u k).1
  unfolding delete_by_id
  delete_id-IsValid i u k v =
      deletion-Sound p laws (p.is_uuid i && p.is_uuid u) (λ x. x.id == i && x.user_id == u) k v

  pub delete_id_only :
      (i u : Text) (k : K) (j w : Text)
      → IsValid p laws k
      → owner_of p laws j (delete_by_id p i u k).1 ≡ some w
      → owner_of p laws j k ≡ some w
  unfolding delete_by_id
  delete_id_only i u k j w v e =
      deletion-only p laws (p.is_uuid i && p.is_uuid u) (λ x. x.id == i && x.user_id == u) k v j w e

  pub delete_id_ok :
      (i u h : Text) (k : K) (j : Text)
      → IsValid p laws k
      → (delete_by_id p i u k).0 ≡ ok h
      → (owner_of p laws h k ≡ some u)
        × (owner_of p laws j (delete_by_id p i u k).1
            ≡ (if h == j then none else owner_of p laws j k))
  unfolding delete_by_id
  delete_id_ok i u h k j v e =
      let b = p.is_uuid i && p.is_uuid u in
      let q : Session → Bool = λ x. x.id == i && x.user_id == u in
      let r = map_error-ok (not_found_or (bytes "delete session")) _ h e in
      let (hs, s) = first_row-ok (p.query (deletion p laws b q k v) k).0 h r in
      let d = deletion-ok p laws b q k v (h ∷ hs) s in
      let (x, hx, ix, hit) = delete_sessions-first q (tables k) v h hs (ap (λ w. w.0) d) in
      let one = passes-id i u h j (tables k) x v hx ix hit in
      let after = (deletion-owner p laws b q k v (h ∷ hs) j s).1 in
      (owner-row h (tables k) x hx ∙ ap some (of_user x hit), ground arith)
    where
      of_user : (x : Session) → (x.id == i && x.user_id == u) ≡ true → x.user_id ≡ u
      of_user x hit = elim (Bool-cases (x.id == i)) [
        | inl m ↦ (eq_iff x.user_id u).0 (ground arith)
        | inr m ↦ absurd (ground arith)
      ]

  pub delete_hash-IsValid :
      (h : Text) (k : K) → IsValid p laws k → IsValid p laws (delete_by_token_hash p h k).1
  unfolding delete_by_token_hash
  delete_hash-IsValid h k v = deletion-Sound p laws true (λ x. x.token_hash == h) k v

  pub delete_hash_only :
      (h : Text) (k : K) (j w : Text)
      → IsValid p laws k
      → owner_of p laws j (delete_by_token_hash p h k).1 ≡ some w
      → owner_of p laws j k ≡ some w
  unfolding delete_by_token_hash
  delete_hash_only h k j w v e = deletion-only p laws true (λ x. x.token_hash == h) k v j w e

  pub delete_hash_ok :
      (h : Text) (k : K) (j : Text)
      → IsValid p laws k
      → (delete_by_token_hash p h k).0 ≡ ok tt
      → owner_of p laws j (delete_by_token_hash p h k).1
        ≡ (if h == j then none else owner_of p laws j k)
  unfolding delete_by_token_hash
  delete_hash_ok h k j v e =
      let q : Session → Bool = λ x. x.token_hash == h in
      let (hs, r) = unit_of-ok (with_error (bytes "delete session by token hash")) _ e in
      (deletion-owner p laws true q k v hs j r).1 ∙ passes-hash h j (tables k)
