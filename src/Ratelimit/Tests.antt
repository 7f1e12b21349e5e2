-- ===== src/Ratelimit/Tests.antt =====
-- Three requests of a window whose limit is two.
use auth_service.Prelude.{
  ℕ, ◌+◌, ◌-◌, ◌*◌, ◌%◌, ◌≤◌, ◌≡◌, refl, Text, none, some, [], ◌∷◌, bytes, leb, eqb, if◌then◌else◌,
  true, false,
}
use auth_service.Prelude.Lists.{◌==◌}
use auth_service.Prelude.Maps.{lookup, insert, delete}
use auth_service.Encoding.{decimal, decimal_from}
use auth_service.Redis.{incr_expire}
use auth_service.Redis.Tests.{Server, server, scripts, counts, or_zero}
use auth_service.Ratelimit.{Limiter, window_start, redis_key, allow}
use auth_service.Ratelimit.Bound.{let_through, AllIn, let_through-limit}

-- Two requests in ten seconds.
abbrev limiter : Limiter
limiter = record { limit = 2; window = 10000000000 }

abbrev window : Text
window = bytes "rl:10.0.0.1:50"

abbrev times : auth_service.Prelude.List ℕ
times = 51000000000 ∷ 52000000000 ∷ 59999999999 ∷ []

abbrev empty : Server
empty = record { counters = []; values = [] }

in_window : AllIn server limiter (bytes "10.0.0.1") window times
unfolding redis_key window_start decimal decimal_from
in_window = (refl, (refl, (refl, tt)))

two_pass : let_through server limiter (bytes "10.0.0.1") times empty ≡ 2
unfolding let_through allow incr_expire redis_key window_start decimal decimal_from lookup insert
    delete ◌==◌
two_pass = refl

let_through-limit_example :
    let_through server limiter (bytes "10.0.0.1") times empty
    ≤ 2 - or_zero (lookup window empty.counters)
let_through-limit_example =
    let_through-limit server scripts counts limiter (bytes "10.0.0.1") window times empty in_window
