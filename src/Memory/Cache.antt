-- ===== src/Memory/Cache.antt =====
-- internal/adapters/cache/memory/cache.go
pub mod Expiry
use auth_service.Prelude.{
  ℕ, ◌+◌, Text, Option, none, some, [], bytes, ◌++◌, ltb, if◌then◌else◌, Bool, true, false,
}
use auth_service.Prelude.Maps.{Map, lookup, insert, delete as delete_key}
use auth_service.Models.{Stamp}
use auth_service.Ports.{Error, other, Result, ok, err, CachedSession, SessionCache}

pub record Entry : Type 0 where
  pub session : CachedSession
  pub expires_at : ℕ

pub record Cache : Type 0 where
  pub items : Map Entry

-- New
abbrev pub new : Cache
new = record { items = [] }

-- time.Now().After(e.expiresAt)
abbrev pub is_live : ℕ → Option Entry → Option Entry
is_live now none = none
is_live now (some e) = if ltb e.expires_at now then none else some e

-- (*Cache).Set
unfoldable pub set : Stamp → Text → CachedSession → ℕ → Cache → Result Error (Unit {0}) × Cache
set t hash x ttl c = (
  ok tt,
  record { items = insert hash (record { session = x; expires_at = t.now + ttl }) c.items },
)

-- (*Cache).Get: a missing or expired entry is deleted and reported
unfoldable pub get : Stamp → Text → Cache → Result Error CachedSession × Cache
get t hash c = elim (is_live t.now (lookup hash c.items)) [
  | none ↦ (err (other (bytes "cache miss: " ++ hash)), record { items = delete_key hash c.items })
  | some e ↦ (ok e.session, c)
]

-- (*Cache).Delete
unfoldable pub delete : Text → Cache → Result Error (Unit {0}) × Cache
delete hash c = (ok tt, record { items = delete_key hash c.items })

abbrev pub session_cache : SessionCache Cache
session_cache = record { set = set; get = get; delete = delete }
