-- ===== src/Bruteforce/Tests.antt =====
-- The theorems of the guard, applied with Redis away.
use auth_service.Prelude.{◌+◌, ◌≡◌, refl, none, [], ◌∷◌, bytes, ltb, true, arith}
use auth_service.Prelude.Lists.{◌==◌}
use auth_service.Prelude.Maps.{lookup}
use auth_service.Ports.{ok}
use auth_service.Redis.{Client}
use auth_service.Bruteforce.{
  LocalEntry, Limits, GuardState, is_locked_entry, record_failure_entry, get_local_entry, is_locked,
  record_locally, record_failure,
}
use auth_service.Bruteforce.Fallback.{fail_all, fail_all-locks, record_failure-is_locked}

abbrev limits : Limits
limits = record { max_attempts = 3; window = 900; lockout_ttl = 100 }

-- An entry whose window ends at 1000.
abbrev entry : LocalEntry
entry = record { count = 0; window_end = 1000; locked_until = 0 }

fail_all-locks_example :
    ((record_failure_entry 30 limits (fail_all limits (10 ∷ 20 ∷ []) entry)).0 ≡ true)
    × (is_locked_entry 129 (record_failure_entry 30 limits (fail_all limits (10 ∷ 20 ∷ []) entry)).1
        ≡ ltb 129 (30 + 100))
fail_all-locks_example =
    fail_all-locks limits (10 ∷ 20 ∷ []) 30 129 entry (omega arith, (omega arith, tt)) (omega arith)
      refl

-- A server that never answers.
abbrev client : Client (Unit {0})
client = record {
  exists = λ k s. (none, s);
  set = λ k v ttl s. (none, s);
  del = λ ks s. (none, s);
  get_int = λ k s. (none, s);
  eval = λ f s. (none, s);
  get = λ k s. (none, s);
  call_get = λ k s. none;
  pttl = λ k s. 0;
  set_px = λ k v ttl s. s;
  incr = λ k s. (1, s);
  expire = λ k n s. s;
}

abbrev guard : GuardState (Unit {0})
guard = record {
  redis = tt;
  entries = (bytes "e", record { count = 2; window_end = 1000; locked_until = 0 }) ∷ [];
}

third_failure : (record_failure client limits 30 (bytes "e") guard).0 ≡ ok true
unfolding record_failure record_locally get_local_entry record_failure_entry lookup ◌==◌
third_failure = refl

record_failure-is_locked_example :
    (is_locked client limits 129
      (bytes "e")
      (record_failure client limits 30 (bytes "e") guard).1).0
    ≡ ok true
record_failure-is_locked_example =
    record_failure-is_locked client limits 30 129 (bytes "e") guard (λ f k. refl) (λ k. refl)
      third_failure (omega arith)
