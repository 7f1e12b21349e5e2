-- ===== src/Interceptor.antt =====
-- internal/interceptor/ratelimit.go: the limits that a call passes before its handler.
use auth_service.Prelude.{
  ℕ, Text, List, [], ◌∷◌, ◌++◌, bytes, if◌then◌else◌, ◌==◌, ◌||◌, Bool, true, false,
}
use auth_service.Redis.{Client}
use auth_service.Ratelimit.{Limiter, Verdict, allow}
use auth_service.Context.{Context, extract_ip, short_method}

abbrev one_of : Text → List Text → Bool
one_of m [] = false
one_of m (n ∷ ns) = m == n || one_of m ns

-- sensitiveMethods
unfoldable pub is_sensitive : Text → Bool
is_sensitive m = one_of m (
    bytes "Login"
    ∷ bytes "Register"
    ∷ bytes "ChangePassword"
    ∷ bytes "RequestPasswordReset"
    ∷ bytes "VerifyResetCode"
    ∷ bytes "ResetPassword"
    ∷ [])

-- Where a call goes: to its handler, or back with ResourceExhausted by one of the two limits.
pub data Passage : Type 0 where
  handled too_many_requests too_many_logins : Passage

-- `else if !allowed`: a limiter that failed lets the call pass
abbrev pub refuses : Verdict → Bool
refuses v = if v.failed then false else if v.allowed then false else true

module _ {K : Type 0} (c : Client K) (global_limiter login_limiter : Limiter) where
  -- RateLimit, with the times that its two limiters read
  unfoldable pub rate_limit : ℕ → ℕ → Context → Text → K → Passage × K
  unfolding allow is_sensitive extract_ip short_method
  rate_limit now later ctx full_method k =
      let ip = extract_ip ctx in
      let g = allow c global_limiter now ip k in
      if refuses g.0
      then (too_many_requests, g.1)
      else if is_sensitive (short_method full_method)
      then (let a = allow c login_limiter later (bytes "auth:" ++ ip) g.1 in
          if refuses a.0 then (too_many_logins, a.1) else (handled, a.1))
      else (handled, g.1)
