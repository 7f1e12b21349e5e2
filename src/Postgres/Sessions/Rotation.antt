-- ===== src/Postgres/Sessions/Rotation.antt =====
-- internal/adapters/storage/postgres/session.go: RotateToken, whose transaction deletes and inserts.
use auth_service.Prelude.{
  ◌≡◌, ◌≢◌, ◌⊎◌, inl, inr, refl, sym, ap, ◌∙◌, subst, Text, none, some, List, [], ◌∷◌, Bool, true,
  ◌==◌, eq_iff, if◌then◌else◌, arith, bytes,
}
use auth_service.Models.{Session, Stamp}
use auth_service.Ports.{Error, Result, ok, err}
use auth_service.Postgres.{Tables, DbError, Pool, first_row, with_uuid}
use auth_service.Postgres.Connection.{PoolLaws, with_uuid-ok, first_row-ok}
use auth_service.Postgres.Rows.{row_of, key-row_of}
use auth_service.Postgres.Sessions.{
  insert_session, delete_sessions, map_error, with_error, scanned, commit_rotation, insert_rotated,
  rotate_in, rotate_token,
}
use auth_service.Postgres.Sessions.Statements.{
  hash_of, owner, owner-row, Sound, delete_sessions-Sound, owner-delete_sessions,
  delete_sessions-first, passes-hash, insert_session-Sound, owner-insert_session,
}
use auth_service.Postgres.Sessions.Deletion.{scanned-ok}

module _ (t : Stamp) (h : Text) (x : Session) where
  -- The tables with the old session deleted.
  abbrev deleted : Tables → Tables
  deleted ts = (delete_sessions (λ y. y.token_hash == h) ts).1

  -- The tables with the new one inserted after that.
  abbrev pub rotated : Tables → Tables
  rotated ts = (insert_session t x (deleted ts)).1

  pub rotated-Sound : (ts : Tables) → Sound ts → x.token_hash ≢ [] → Sound (rotated ts)
  rotated-Sound ts v n =
      insert_session-Sound t x (deleted ts) (delete_sessions-Sound (λ y. y.token_hash == h) ts v) n

  owner-deleted :
      (k : Text) (ts : Tables)
      → Sound ts
      → owner k (deleted ts) ≡ (if h == k then none else owner k ts)
  owner-deleted k ts v = owner-delete_sessions (λ y. y.token_hash == h) ts v k ∙ passes-hash h k ts

  -- Where there was an old session, the new one is in its place.
  abbrev pub Replaced : Tables → Tables → Type 0
  Replaced before after =
      (owner h before ≢ none)
      × ((y : Session) × ((ys : List Session) × (insert_session t x (deleted before)
              ≡ (ok (y ∷ ys), after))))

  pub Replaced-Sound : (ts us : Tables) → Sound ts → x.token_hash ≢ [] → Replaced ts us → Sound us
  Replaced-Sound ts us v n (o, (y, (ys, e))) = subst Sound (ap (λ r. r.1) e) (rotated-Sound ts v n)

  -- The owners after the insertion.
  pub owner-rotated :
      (ts us : Tables) (y : Session) (ys : List Session) (k : Text)
      → Sound ts
      → insert_session t x (deleted ts) ≡ (ok (y ∷ ys), us)
      → owner k us
        ≡ (if x.token_hash == k then some x.user_id else if h == k then none else owner k ts)
  owner-rotated ts us y ys k v e =
      ap (λ r. owner k r.1) (sym e)
      ∙ owner-insert_session t x (deleted ts) k y ys (ap (λ r. r.0) e)
      ∙ ap (λ o. if x.token_hash == k then some x.user_id else o) (owner-deleted k ts v)

  module _ {K : Type 0} (p : Pool K) (laws : PoolLaws p) where
    open laws use {tables, seen, begin_only, begin_ok, tx_ok, commit_ok, commit_only, rollback_only}

    -- A row was inserted into what the transaction saw.
    abbrev Inserted : p.Tx → Tables → Type 0
    Inserted tx us =
        (y : Session) × ((ys : List Session) × (insert_session t x (seen tx) ≡ (ok (y ∷ ys), us)))

    -- A commit happens or not; the new session is handed back only where it did.
    commit_rotation-lem :
        (y : Session) (tx : p.Tx) (k : K)
        → ((tables (commit_rotation p y tx k).1 ≡ tables k)
            ⊎ (tables (commit_rotation p y tx k).1 ≡ seen tx))
          × ((z : Session)
              → (commit_rotation p y tx k).0 ≡ ok z
              → tables (commit_rotation p y tx k).1 ≡ seen tx)
    unfolding commit_rotation
    commit_rotation-lem y tx k = (
      elim (commit_only tx k) [
        | inl e ↦ inl (rollback_only tx _ ∙ e)
        | inr e ↦ inr (rollback_only tx _ ∙ e)
      ],
      λ z e. rollback_only tx _ ∙ commit_ok tx k (committed (p.commit tx k).0 z e),
    )
      where
        committed :
            (c : Result DbError (Unit {0})) (z : Session)
            → elim c [ ok _ ↦ ok y | err e ↦ err (auth_service.Ports.other (bytes "commit")) ]
              ≡ ok z
            → c ≡ ok tt
        committed (ok tt) z e = refl
        committed (err g) z e = absurd (cc)

    abbrev Inserts : p.Tx → K → Result Error Session × K → Type 0
    Inserts tx k r =
        ((tables r.1 ≡ tables k) ⊎ Inserted tx (tables r.1))
        × ((z : Session) → r.0 ≡ ok z → Inserted tx (tables r.1))

    insert_rotated-Inserts : (tx : p.Tx) (k : K) → Inserts tx k (insert_rotated p t x tx k)
    unfolding insert_rotated
    insert_rotated-Inserts tx k = by _ refl
      where
        r : Result DbError (List Session) × p.Tx
        r = p.tx_query (with_uuid (p.is_uuid x.user_id) (insert_session t x)) tx

        done :
            (z : Session)
            → scanned x (map_error (with_error (bytes "create new session")) (first_row r.0)) ≡ ok z
            → Inserted tx (seen r.1)
        done z e =
            let (y, f) =
              scanned-ok x z (with_error (bytes "create new session")) (first_row r.0) e in
            let (ys, g) = first_row-ok r.0 y f in
            (
              y,
              (
                ys,
                with_uuid-ok (p.is_uuid x.user_id) (insert_session t x) (seen tx) (y ∷ ys)
                    (seen r.1)
                    (tx_ok (with_uuid (p.is_uuid x.user_id) (insert_session t x)) tx (y ∷ ys) g),
              ),
            )

        by :
            (o : Result Error Session)
            → scanned x (map_error (with_error (bytes "create new session")) (first_row r.0)) ≡ o
            → Inserts tx k
                (elim o [ err e ↦ (err e, p.rollback r.1 k) | ok y ↦ commit_rotation p y r.1 k ])
        by (err e) f = (inl (rollback_only r.1 k), λ z c. absurd (cc))
        by (ok y) f =
            let (either, all) = commit_rotation-lem y r.1 k in
            (
              elim either [ inl e ↦ inl e | inr e ↦ inr (subst (Inserted tx) (sym e) (done y f)) ],
              λ z c. subst (Inserted tx) (sym (all z c)) (done y f),
            )

    -- RotateToken leaves the tables as they were or replaces the old session, whatever it returns;
    -- where it succeeds it has replaced it.
    abbrev pub Rotates : Tables → Result Error Session × K → Type 0
    Rotates ts r =
        ((tables r.1 ≡ ts) ⊎ Replaced ts (tables r.1))
        × ((z : Session) → r.0 ≡ ok z → Replaced ts (tables r.1))

    rolled_back :
        (ts : Tables) (e : Error) (tx : p.Tx) (k : K)
        → tables k ≡ ts
        → Rotates ts (err e, p.rollback tx k)
    rolled_back ts e tx k s = (inl (rollback_only tx k ∙ s), λ z c. absurd (cc))

    rotate_in-Rotates :
        (ts : Tables) (v : Sound ts) (tx : p.Tx) (k : K)
        → seen tx ≡ ts
        → tables k ≡ ts
        → Rotates ts (rotate_in p t h x tx k)
    unfolding rotate_in
    rotate_in-Rotates ts v tx k same now = by r.0 refl
      where
        q : Session → Bool
        q y = y.token_hash == h

        r : Result DbError (List Text) × p.Tx
        r = p.tx_query (delete_sessions (λ y. y.token_hash == h)) tx

        replaced :
            (g : Text) (gs : List Text)
            → r.0 ≡ ok (g ∷ gs)
            → (us : Tables) → Inserted r.1 us
            → Replaced ts us
        replaced g gs e us (y, (ys, i)) =
            let d : delete_sessions (λ y. y.token_hash == h) ts ≡ (ok (g ∷ gs), seen r.1) =
              subst (λ w. delete_sessions (λ y. y.token_hash == h) w ≡ (ok (g ∷ gs), seen r.1)) same
                (tx_ok (delete_sessions (λ y. y.token_hash == h)) tx (g ∷ gs) e) in
            let (z, at, _, hit) =
              delete_sessions-first (λ y. y.token_hash == h) ts v g gs (ap (λ w. w.0) d) in
            (owner_found g z at hit, (y, (ys, ap (λ w. insert_session t x w.1) d ∙ i)))
          where
            owner_found :
                (g : Text) (z : Session)
                → row_of hash_of g ts.sessions ≡ some z
                → (z.token_hash == h) ≡ true
                → owner h ts ≢ none
            owner_found g z at hit c =
                let gz : z.token_hash ≡ g = key-row_of hash_of g ts.sessions z at in
                let zh : z.token_hash ≡ h = (eq_iff z.token_hash h).0 hit in
                let found = owner-row g ts z at in
                let same : g ≡ h = sym gz ∙ zh in
                let o : owner g ts ≡ none = ap (λ j. owner j ts) same ∙ c in ground arith

        by :
            (o : Result DbError (List Text))
            → r.0 ≡ o
            → Rotates ts (elim o [
              | err e ↦
                  (err (auth_service.Ports.other (bytes "delete old session")), p.rollback r.1 k)
              | ok [] ↦ (err auth_service.Ports.session_not_found, p.rollback r.1 k)
              | ok (g ∷ gs) ↦ insert_rotated p t x r.1 k
            ])
        by (err e) f = rolled_back ts _ r.1 k now
        by (ok []) f = rolled_back ts _ r.1 k now
        by (ok (g ∷ gs)) f =
            let (either, all) = insert_rotated-Inserts r.1 k in
            (
              elim either [ inl e ↦ inl (e ∙ now) | inr i ↦ inr (replaced g gs f _ i) ],
              λ z c. replaced g gs f _ (all z c),
            )

    -- With a connection that keeps its laws, in tables with one session at most to a hash and to an
    -- ID and none under the empty hash: whatever RotateToken returns, the tables are unchanged, or
    -- there was a session under the old hash and the tables are those with it deleted and then the
    -- new one inserted. Where RotateToken returns a session, they are the latter.
    pub rotate_token-Rotates :
        (k : K) → Sound (tables k) → Rotates (tables k) (rotate_token p t h x k)
    unfolding rotate_token
    rotate_token-Rotates k v = by (p.begin k).0 refl
      where
        by :
            (o : Result DbError p.Tx)
            → (p.begin k).0 ≡ o
            → Rotates (tables k) (elim o [
              | err e ↦ (err (auth_service.Ports.other (bytes "begin tx")), (p.begin k).1)
              | ok tx ↦ rotate_in p t h x tx (p.begin k).1
            ])
        by (err e) f = (inl (begin_only k), λ z c. absurd (cc))
        by (ok tx) f =
            rotate_in-Rotates (tables k) v tx (p.begin k).1 (begin_ok k tx f) (begin_only k)
