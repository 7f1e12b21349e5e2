-- ===== src/Bruteforce.antt =====
-- internal/lib/bruteforce/bruteforce.go: failed logins are counted per address, in Redis, or in
-- the process where a round trip fails.
pub mod Fallback
pub mod Tests
use auth_service.Prelude.{
  ℕ, ◌+◌, ◌-◌, ◌/◌, Text, Option, none, some, List, [], ◌∷◌, ◌++◌, bytes, ltb, leb, if◌then◌else◌,
  Bool, true, false,
}
use auth_service.Prelude.Maps.{Map, lookup, insert, delete}
use auth_service.Ports.{Error, other, Result, ok, err}
use auth_service.Redis.{Client, incr_expire}

-- localEntry; the zero time is 0
pub record LocalEntry : Type 0 where
  pub count : ℕ
  pub window_end : ℕ
  pub locked_until : ℕ

-- &localEntry{}
abbrev pub new_entry : LocalEntry
new_entry = record { count = 0; window_end = 0; locked_until = 0 }

-- The settings of a Guard.
pub record Limits : Type 0 where
  pub max_attempts : ℕ
  pub window : ℕ
  pub lockout_ttl : ℕ

-- (*localEntry).isLocked
unfoldable pub is_locked_entry : ℕ → LocalEntry → Bool
is_locked_entry now e = ltb now e.locked_until

-- A window that is over is begun anew.
abbrev pub renewed : ℕ → Limits → LocalEntry → LocalEntry
renewed now l e =
    if ltb e.window_end now then record e { count = 0; window_end = now + l.window } else e

-- (*localEntry).recordFailure
unfoldable pub record_failure_entry : ℕ → Limits → LocalEntry → Bool × LocalEntry
record_failure_entry now l e =
    let e' = renewed now l e in
    let n = e'.count + 1 in
    if leb l.max_attempts n
    then (true, record e' { count = 0; locked_until = now + l.lockout_ttl })
    else (false, record e' { count = n })

-- The state that a Guard works on: the server, and `local`.
pub record GuardState (K : Type 0) : Type 0 where
  pub redis : K
  pub entries : Map LocalEntry

abbrev pub attempts_key : Text → Text
attempts_key email = bytes "bf:attempts:" ++ email

abbrev pub locked_key : Text → Text
locked_key email = bytes "bf:locked:" ++ email

-- int64(d.Seconds())
abbrev pub seconds : ℕ → ℕ
seconds d = d / 1000000000

module _ {K : Type 0} (c : Client K) (l : Limits) where
  -- (*Guard).getLocalEntry: a missing entry is stored
  unfoldable pub get_local_entry : Text → GuardState K → LocalEntry × GuardState K
  get_local_entry email g = elim (lookup email g.entries) [
    | some e ↦ (e, g)
    | none ↦ (new_entry, record g { entries = insert email new_entry g.entries })
  ]

  -- (*Guard).IsLocked
  unfoldable pub is_locked : ℕ → Text → GuardState K → Result Error Bool × GuardState K
  unfolding get_local_entry is_locked_entry
  is_locked now email g =
      let r = c.exists (locked_key email) g.redis in
      let g' = record g { redis = r.1 } in
      elim r.0 [
        | some n ↦ (ok (ltb 0 n), g')
        | none ↦ let e = get_local_entry email g' in (ok (is_locked_entry now e.0), e.1)
      ]

  -- The branch of RecordFailure for a failed round trip.
  unfoldable pub record_locally : ℕ → Text → GuardState K → Result Error Bool × GuardState K
  unfolding get_local_entry record_failure_entry
  record_locally now email g =
      let e = get_local_entry email g in
      let r = record_failure_entry now l e.0 in
      (ok r.0, record (e.1) { entries = insert email r.1 (e.1).entries })

  -- (*Guard).RecordFailure
  unfoldable pub record_failure : ℕ → Text → GuardState K → Result Error Bool × GuardState K
  unfolding record_locally incr_expire
  record_failure now email g =
      let r = c.eval (incr_expire c (attempts_key email) (seconds l.window)) g.redis in
      let g₁ = record g { redis = r.1 } in
      elim r.0 [
        | none ↦ record_locally now email g₁
        | some count ↦
            if leb l.max_attempts count
            then (let s = c.set (locked_key email) (bytes "1") l.lockout_ttl g₁.redis in
                elim s.0 [
                  | none ↦ (err (other (bytes "bruteforce lock")), record g₁ { redis = s.1 })
                  | some _ ↦
                      (ok true, record g₁ { redis = (c.del (attempts_key email ∷ []) s.1).1 })
                ])
            else (ok false, g₁)
      ]

  -- (*Guard).Reset
  unfoldable pub reset : Text → GuardState K → GuardState K
  reset email g = record {
    redis = (c.del (attempts_key email ∷ locked_key email ∷ []) g.redis).1;
    entries = delete email g.entries;
  }

  -- (*Guard).AttemptsRemaining; its error is that of IsLocked
  unfoldable pub attempts_remaining : ℕ → Text → GuardState K → Result Error ℕ × GuardState K
  unfolding is_locked get_local_entry
  attempts_remaining now email g =
      let r = is_locked now email g in
      elim r.0 [
        | err e ↦ (err e, r.1)
        | ok true ↦ (ok 0, r.1)
        | ok false ↦
            let n = c.get_int (attempts_key email) (r.1).redis in
            let g' = record (r.1) { redis = n.1 } in
            elim n.0 [
              | some (some count) ↦ (ok (l.max_attempts - count), g')
              | some none ↦ (ok l.max_attempts, g')
              | none ↦ let e = get_local_entry email g' in (ok (l.max_attempts - (e.0).count), e.1)
            ]
      ]
