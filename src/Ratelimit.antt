-- ===== src/Ratelimit.antt =====
-- internal/lib/ratelimit/ratelimit.go: a fixed window per key, counted in Redis.
pub mod Bound
pub mod Tests
use auth_service.Prelude.{
  ℕ, ◌-◌, ◌*◌, ◌/◌, ◌%◌, Text, none, some, ◌++◌, bytes, leb, Bool, true, false,
}
use auth_service.Encoding.{decimal}
use auth_service.Redis.{Client, incr_expire}

-- The settings of a Limiter; the window is in nanoseconds.
pub record Limiter : Type 0 where
  pub limit : ℕ
  pub window : ℕ

-- The answer of Allow: whether to let the request through, and whether Redis failed.
pub record Verdict : Type 0 where
  pub allowed : Bool
  pub failed : Bool

-- time.Now().Truncate(window).Unix(), the time being counted from a multiple of the window
unfoldable pub window_start : ℕ → ℕ → ℕ
window_start window now = (now - now % window) / 1000000000

unfoldable pub redis_key : Limiter → ℕ → Text → Text
unfolding window_start decimal
redis_key l now key = bytes "rl:" ++ (key ++ (bytes ":" ++ decimal (window_start l.window now)))

module _ {K : Type 0} (c : Client K) where
  -- (*Limiter).Allow
  unfoldable pub allow : Limiter → ℕ → Text → K → Verdict × K
  unfolding redis_key incr_expire
  allow l now key k =
      let r = c.eval (incr_expire c (redis_key l now key) (l.window * 2 / 1000000000)) k in
      elim r.0 [
        | none ↦ (record { allowed = true; failed = true }, r.1)
        | some count ↦ (record { allowed = leb count l.limit; failed = false }, r.1)
      ]
