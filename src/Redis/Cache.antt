-- ===== src/Redis/Cache.antt =====
-- internal/adapters/cache/redis/cache.go. The JSON of encoding/json is a parameter.
use auth_service.Prelude.{ℕ, Text, Option, none, some, [], ◌∷◌, ◌++◌, bytes, leb, if◌then◌else◌}
use auth_service.Models.{Stamp}
use auth_service.Ports.{Error, other, Result, ok, err, CachedSession, SessionCache}
use auth_service.Redis.{Client}

-- json.Marshal and json.Unmarshal at one type.
pub record Json (A : Type 0) : Type 0 where
  pub marshal : A → Option Text
  pub unmarshal : Text → Option A

abbrev pub key_prefix : Text
key_prefix = bytes "refresh:"

-- What is reported of a command without a value.
abbrev pub done_or : Text → Option (Unit {0}) → Result Error (Unit {0})
done_or m none = err (other m)
done_or m (some tt) = ok tt

abbrev pub parsed_or : {A : Type 0} → Text → Option A → Result Error A
parsed_or m none = err (other m)
parsed_or m (some a) = ok a

module _ {K : Type 0} (c : Client K) (json : Json CachedSession) where
  -- (*Cache).Set
  unfoldable pub set : Stamp → Text → CachedSession → ℕ → K → Result Error (Unit {0}) × K
  set t token_hash sess ttl k = if leb ttl 0 then (ok tt, k) else elim (json.marshal sess) [
    | none ↦ (err (other (bytes "cache marshal")), k)
    | some text ↦
        let r = c.set (key_prefix ++ token_hash) text ttl k in
        (done_or (bytes "cache set") r.0, r.1)
  ]

  abbrev pub read_session : Option (Option Text) → Result Error CachedSession
  read_session none = err (other (bytes "cache get"))
  read_session (some none) = err (other (bytes "cache get"))
  read_session (some (some text)) = parsed_or (bytes "cache unmarshal") (json.unmarshal text)

  -- (*Cache).Get: a missing key is an error like any other
  unfoldable pub get : Stamp → Text → K → Result Error CachedSession × K
  get t token_hash k = let r = c.get (key_prefix ++ token_hash) k in (read_session r.0, r.1)

  -- (*Cache).Delete
  unfoldable pub delete : Text → K → Result Error (Unit {0}) × K
  delete token_hash k =
      let r = c.del ((key_prefix ++ token_hash) ∷ []) k in (done_or (bytes "del") r.0, r.1)

  -- New
  abbrev pub session_cache : SessionCache K
  session_cache = record { set = set; get = get; delete = delete }
