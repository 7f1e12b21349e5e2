-- ===== src/Memory/Cache/Expiry.antt =====
-- internal/adapters/cache/memory/cache.go: what a Get finds after a Set, after a Delete and after
-- another Get.
use auth_service.Prelude.{ℕ, ◌+◌, ◌≡◌, Text, bytes, ◌++◌, ltb, if◌then◌else◌, ◌==◌, eq_iff, arith}
use auth_service.Prelude.Maps.{lookup-insert, lookup-delete}
use auth_service.Models.{Stamp}
use auth_service.Ports.{Error, other, Result, ok, err, CachedSession}
use auth_service.Memory.Cache.{Cache, set, get, delete}

abbrev pub miss : Text → Result Error CachedSession
miss k = err (other (bytes "cache miss: " ++ k))

module _ (t t' : Stamp) (h k : Text) (c : Cache) where
  -- A Get after a Set finds the session under its key until its time to live is over, and under
  -- another key what it found before.
  pub get-set :
      (x : CachedSession) (ttl : ℕ)
      → (get t' k (set t h x ttl c).1).0
        ≡ (if h == k then if ltb (t.now + ttl) t'.now then miss k else ok x else (get t' k c).0)
  unfolding get set
  get-set x ttl = ground (
    arith,
    lookup-insert h k (record { session = x; expires_at = t.now + ttl }) c.items,
    eq_iff h k,
  )

  -- A Get after a Delete misses under that key, and finds under another key what it found before.
  pub get-delete : (get t' k (delete h c).1).0 ≡ (if h == k then miss k else (get t' k c).0)
  unfolding get delete
  get-delete = ground (arith, lookup-delete h k c.items, eq_iff h k)
