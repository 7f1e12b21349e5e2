-- ===== src/Postgres/Sessions/Deletion.antt =====
-- internal/adapters/storage/postgres/session.go: what a DELETE does to the owners of sessions.
use auth_service.Prelude.{
  ◌≡◌, ◌≢◌, refl, sym, ap, ◌∙◌, Text, Option, none, some, List, [], Bool, if◌then◌else◌,
}
use auth_service.Models.{Session, Stamp}
use auth_service.Ports.{Error, Result, ok, err}
use auth_service.Ports.Laws.{listed}
use auth_service.Postgres.{DbError, Statement, Pool, with_uuid}
use auth_service.Postgres.Connection.{PoolLaws, with_uuid-keeps, with_uuid-ok, query-keeps}
use auth_service.Postgres.Rows.{row_of}
use auth_service.Postgres.Rows.Selection.{passes}
use auth_service.Postgres.Sessions.{delete_sessions, map_error, unit_of, scanned}
use auth_service.Postgres.Sessions.Statements.{
  hash_of, owner, Sound, delete_sessions-Sound, owner-delete_sessions, owner-delete_only,
  listed-delete_sessions,
}

pub map_error-ok :
    {A : Type 0} (f : DbError → Error) (r : Result DbError A) (a : A)
    → map_error f r ≡ ok a
    → r ≡ ok a
map_error-ok f (ok b) a e = cc
map_error-ok f (err x) a e = absurd (cc)

pub scanned-ok :
    (x y : Session) (f : DbError → Error) (r : Result DbError Session)
    → scanned x (map_error f r) ≡ ok y
    → (z : Session) × (r ≡ ok z)
scanned-ok x y f (ok z) e = (z, refl)
scanned-ok x y f (err g) e = absurd (cc)

pub unit_of-ok :
    {A : Type 0} (f : DbError → Error) (r : Result DbError A)
    → unit_of (map_error f r) ≡ ok tt
    → (a : A) × (r ≡ ok a)
unit_of-ok f (ok a) e = (a, refl)
unit_of-ok f (err x) e = absurd (cc)

module _ {K : Type 0} (p : Pool K) (laws : PoolLaws p) where
  open laws use {tables, query_ok}

  abbrev pub IsValid : K → Type 0
  IsValid k = Sound (tables k)

  abbrev pub IsFresh : Stamp → Session → K → Type 0
  IsFresh t x k = (owner x.token_hash (tables k) ≡ none) × (x.token_hash ≢ [])

  abbrev pub owner_of : Text → K → Option Text
  owner_of h k = owner h (tables k)

  module _ (b : Bool) (q : Session → Bool) (k : K) (v : Sound (tables k)) where
    -- DELETE FROM sessions WHERE …, as the repository sends it.
    abbrev pub deletion : Statement (List Text)
    deletion = with_uuid b (delete_sessions q)

    pub deletion-Sound : Sound (tables (p.query deletion k).1)
    deletion-Sound = query-keeps p laws Sound deletion k v (
        with_uuid-keeps b (delete_sessions q) (tables k) Sound v
          (delete_sessions-Sound q (tables k) v))

    pub deletion-only :
        (j u : Text)
        → owner j (tables (p.query deletion k).1) ≡ some u
        → owner j (tables k) ≡ some u
    deletion-only j u =
        query-keeps p laws (λ ts. owner j ts ≡ some u → owner j (tables k) ≡ some u) deletion k
          (λ e. e)
          (with_uuid-keeps b (delete_sessions q) (tables k)
            (λ ts. owner j ts ≡ some u → owner j (tables k) ≡ some u) (λ e. e)
            (owner-delete_only q (tables k) v j u))

    pub deletion-ok :
        (hs : List Text)
        → (p.query deletion k).0 ≡ ok hs
        → delete_sessions q (tables k) ≡ (ok hs, tables (p.query deletion k).1)
    deletion-ok hs e = with_uuid-ok b (delete_sessions q) (tables k) hs _ (query_ok deletion k hs e)

    pub deletion-owner :
        (hs : List Text) (j : Text)
        → (p.query deletion k).0 ≡ ok hs
        → (listed j hs ≡ passes q (row_of hash_of j (tables k).sessions))
          × (owner j (tables (p.query deletion k).1) ≡ (
              if passes q (row_of hash_of j (tables k).sessions) then none else owner j (tables k)))
    deletion-owner hs j e =
        let r = deletion-ok hs e in
        (
          listed-delete_sessions q (tables k) v j hs (ap (λ x. x.0) r),
          ap (λ x. owner j x.1) (sym r) ∙ owner-delete_sessions q (tables k) v j,
        )
