-- ===== src/Postgres/Connection.antt =====
-- What the documentation of PostgreSQL and pgx says of a connection: a statement is carried out as a
-- whole or not at all, a transaction is seen when it commits, and its Rollback changes nothing.
use auth_service.Prelude.{◌≡◌, ◌⊎◌, inl, inr, sym, subst, Bool, true, false, List, ◌∷◌, [], arith}
use auth_service.Ports.{Result, ok, err}
use auth_service.Postgres.{Tables, DbError, Statement, Pool, first_row, with_uuid}

pub record PoolLaws {K : Type 0} (p : Pool K) : Type 1 where
  pub tables : K → Tables
  -- the tables as a transaction sees them
  pub seen : p.Tx → Tables
  pub query_ok :
      {A : Type 0} (f : Statement A) (k : K) (a : A)
      → (p.query f k).0 ≡ ok a
      → f (tables k) ≡ (ok a, tables (p.query f k).1)
  -- An error may come after the statement was carried out.
  pub query_only :
      {A : Type 0} (f : Statement A) (k : K)
      → (tables (p.query f k).1 ≡ tables k) ⊎ (tables (p.query f k).1 ≡ (f (tables k)).1)
  pub begin_only : (k : K) → tables (p.begin k).1 ≡ tables k
  pub begin_ok : (k : K) (tx : p.Tx) → (p.begin k).0 ≡ ok tx → seen tx ≡ tables k
  pub tx_ok :
      {A : Type 0} (f : Statement A) (tx : p.Tx) (a : A)
      → (p.tx_query f tx).0 ≡ ok a
      → f (seen tx) ≡ (ok a, seen (p.tx_query f tx).1)
  pub commit_ok :
      (tx : p.Tx) (k : K) → (p.commit tx k).0 ≡ ok tt → tables (p.commit tx k).1 ≡ seen tx
  pub commit_only :
      (tx : p.Tx) (k : K)
      → (tables (p.commit tx k).1 ≡ tables k) ⊎ (tables (p.commit tx k).1 ≡ seen tx)
  pub rollback_only : (tx : p.Tx) (k : K) → tables (p.rollback tx k) ≡ tables k

module _ {A : Type 0} (b : Bool) (f : Statement A) (ts : Tables) where
  -- A statement that takes a text for a UUID changes what it would, or nothing.
  pub with_uuid-keeps : (P : Tables → Type 0) → P ts → P (f ts).1 → P (with_uuid b f ts).1
  with_uuid-keeps P h g = by b
    where
      by : (b : Bool) → P (with_uuid b f ts).1
      by true = g
      by false = h

  pub with_uuid-ok : (a : A) (us : Tables) → with_uuid b f ts ≡ (ok a, us) → f ts ≡ (ok a, us)
  with_uuid-ok a us e = by b e
    where
      by : (b : Bool) → with_uuid b f ts ≡ (ok a, us) → f ts ≡ (ok a, us)
      by true e = e
      by false e = absurd (ground arith)

-- A first row comes from a list that has one.
pub first_row-ok :
    {A : Type 0} (r : Result DbError (List A)) (a : A)
    → first_row r ≡ ok a
    → (rest : List A) × (r ≡ ok (a ∷ rest))
first_row-ok (ok []) a e = absurd (cc)
first_row-ok (ok (x ∷ xs)) a e = (xs, cc)
first_row-ok (err x) a e = absurd (cc)

module _ {K : Type 0} (p : Pool K) (laws : PoolLaws p) where
  open laws use {tables, query_ok, query_only}

  -- What holds before a query, and after its statement, holds after the query.
  pub query-keeps :
      {A : Type 0} (P : Tables → Type 0) (f : Statement A) (k : K)
      → P (tables k)
      → P (f (tables k)).1
      → P (tables (p.query f k).1)
  query-keeps P f k h g = elim (query_only f k) [
    | inl e ↦ subst P (sym e) h
    | inr e ↦ subst P (sym e) g
  ]

  pub query-row :
      {A : Type 0} (f : Statement (List A)) (k : K) (a : A)
      → first_row (p.query f k).0 ≡ ok a
      → (rest : List A) × (f (tables k) ≡ (ok (a ∷ rest), tables (p.query f k).1))
  query-row f k a e =
      let (rest, r) = first_row-ok (p.query f k).0 a e in (rest, query_ok f k (a ∷ rest) r)
