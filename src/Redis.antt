-- ===== src/Redis.antt =====
-- The part of the Redis client and server that the program uses, which it does not implement: the
-- operations on a server's state `K`, with a failed round trip as `none`. Durations are
-- nanoseconds; `incr` and `expire` are the commands inside a script.
pub mod Laws
pub mod Cache
pub mod Resets
pub mod Tests
use auth_service.Prelude.{ℕ, Text, Option, List, eqb, if◌then◌else◌}

pub record Client (K : Type 0) : Type 1 where
  pub exists : Text → K → Option ℕ × K
  pub set : Text → Text → ℕ → K → Option (Unit {0}) × K
  pub del : List Text → K → Option (Unit {0}) × K
  -- `some none` is redis.Nil
  pub get_int : Text → K → Option (Option ℕ) × K
  -- Bytes(), where `some none` is redis.Nil
  pub get : Text → K → Option (Option Text) × K
  -- a script, which nothing interrupts
  pub eval : {A : Type 0} → (K → A × K) → K → Option A × K
  pub incr : Text → K → ℕ × K
  -- seconds
  pub expire : Text → ℕ → K → K
  -- GET, PTTL in milliseconds and SET with PX; a time to live that is not positive counts as 0
  pub call_get : Text → K → Option Text
  pub pttl : Text → K → ℕ
  pub set_px : Text → Text → ℕ → K → K

module _ {K : Type 0} (c : Client K) where
  -- luaIncrExpire of internal/lib/bruteforce/bruteforce.go, and of internal/lib/ratelimit
  unfoldable pub incr_expire : Text → ℕ → K → ℕ × K
  incr_expire key seconds k =
      let r = c.incr key k in if eqb r.0 1 then (r.0, c.expire key seconds r.1) else r
