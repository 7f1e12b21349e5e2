-- ===== src/Redis/Laws.antt =====
-- What the documentation of Redis says of the commands that the program uses, while no key expires.
use auth_service.Prelude.{ℕ, ◌+◌, ◌≡◌, ◌⊎◌, Text, Option, some, eqb, Bool-cases, inl, inr, ◌∙◌}
use auth_service.Redis.{Client, incr_expire}

-- A script runs whole or not at all; an answer may be lost after it ran.
pub record ScriptLaws {K : Type 0} (c : Client K) : Type 1 where
  pub eval_ok :
      {A : Type 0} (f : K → A × K) (k : K) (a : A)
      → (c.eval f k).0 ≡ some a
      → f k ≡ (a, (c.eval f k).1)
  pub eval_only :
      {A : Type 0} (f : K → A × K) (k : K) → ((c.eval f k).1 ≡ k) ⊎ ((c.eval f k).1 ≡ (f k).1)

-- INCR counts from 0, and EXPIRE leaves the count.
pub record CountLaws {K : Type 0} (c : Client K) : Type 1 where
  pub counts : Text → K → ℕ
  pub incr_value : (key : Text) (k : K) → (c.incr key k).0 ≡ counts key k + 1
  pub incr_counts : (key : Text) (k : K) → counts key (c.incr key k).1 ≡ counts key k + 1
  pub expire_counts : (key : Text) (n : ℕ) (k : K) → counts key (c.expire key n k) ≡ counts key k

-- GET and SET of values.
pub record ValueLaws {K : Type 0} (c : Client K) : Type 1 where
  pub value : Text → K → Option Text
  pub get_ok :
      (key : Text) (k : K) (o : Option Text)
      → (c.get key k).0 ≡ some o
      → (value key k ≡ o) × ((c.get key k).1 ≡ k)
  pub set_ok :
      (key v : Text) (ttl : ℕ) (k : K)
      → (c.set key v ttl k).0 ≡ some tt
      → value key (c.set key v ttl k).1 ≡ some v
  pub call_get_value : (key : Text) (k : K) → c.call_get key k ≡ value key k
  pub set_px_value : (key v : Text) (ttl : ℕ) (k : K) → value key (c.set_px key v ttl k) ≡ some v

module _ {K : Type 0} (c : Client K) (laws : CountLaws c) where
  open laws use {counts, incr_value, incr_counts, expire_counts}

  -- The script counts one more and answers the count.
  pub incr_expire-counts :
      (key : Text) (n : ℕ) (k : K)
      → ((incr_expire c key n k).0 ≡ counts key k + 1)
        × (counts key (incr_expire c key n k).1 ≡ counts key k + 1)
  unfolding incr_expire
  incr_expire-counts key n k = elim (Bool-cases (eqb (c.incr key k).0 1)) [
    | inl e ↦
        rw (incr_expire, e)
          (incr_value key k, expire_counts key n (c.incr key k).1 ∙ incr_counts key k)
    | inr e ↦ rw (incr_expire, e) (incr_value key k, incr_counts key k)
  ]
