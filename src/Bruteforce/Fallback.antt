-- ===== src/Bruteforce/Fallback.antt =====
-- internal/lib/bruteforce/bruteforce.go: the guard on its own counters, while Redis is away.
use auth_service.Prelude.{
  ℕ, ◌+◌, ◌≡◌, ◌∙◌, ap, sym, ◌≤◌, ◌<◌, inl, inr, Text, Option, none, some, List, [], ◌∷◌, length,
  ltb, leb, Bool, true, false, arith, Option-cases, Bool-cases, lt→ltb,
}
use auth_service.Prelude.Maps.{lookup, lookup-insert_self, lookup-delete_self}
use auth_service.Ports.{Error, Result, ok}
use auth_service.Redis.{Client, incr_expire}
use auth_service.Bruteforce.{
  LocalEntry, Limits, GuardState, is_locked_entry, renewed, record_failure_entry, get_local_entry,
  locked_key, attempts_key, is_locked, record_locally, record_failure, reset, seconds,
}

-- Failures at the given times, one after another.
unfoldable pub fail_all : Limits → List ℕ → LocalEntry → LocalEntry
unfolding record_failure_entry
fail_all l [] e = e
fail_all l (t ∷ ts) e = fail_all l ts (record_failure_entry t l e).1

abbrev pub InWindow : ℕ → List ℕ → Type 0
InWindow w [] = Unit {0}
InWindow w (t ∷ ts) = (t ≤ w) × InWindow w ts

module _ (l : Limits) where
  one_more :
      (t : ℕ) (e : LocalEntry)
      → t ≤ e.window_end
      → e.count + 1 < l.max_attempts
      → record_failure_entry t l e ≡ (false, record e { count = e.count + 1 })
  unfolding record_failure_entry
  one_more t e w b = elim (Bool-cases (ltb e.window_end t)) [
    | inl c ↦ absurd (ground arith)
    | inr c ↦ ground arith
  ]

  -- Failures within one window are counted, as long as they are fewer than the limit.
  pub fail_all-counts :
      (ts : List ℕ) (e : LocalEntry)
      → InWindow e.window_end ts
      → e.count + length ts < l.max_attempts
      → fail_all l ts e ≡ record e { count = e.count + length ts }
  unfolding fail_all
  fail_all-counts [] e w b = ground arith
  fail_all-counts (t ∷ ts) e (w, ws) b =
      let r = one_more t e w (ground arith) in
      let next = fail_all-counts ts (record e { count = e.count + 1 }) ws (ground arith) in
      rw (r) ground (arith, next)

  -- The failure that reaches the limit within one window locks the account until the lockout is
  -- over, and not an instant longer.
  pub fail_all-locks :
      (ts : List ℕ) (t now : ℕ) (e : LocalEntry)
      → InWindow e.window_end ts
      → t ≤ e.window_end
      → e.count + length ts + 1 ≡ l.max_attempts
      → ((record_failure_entry t l (fail_all l ts e)).0 ≡ true)
        × (is_locked_entry now (record_failure_entry t l (fail_all l ts e)).1
            ≡ ltb now (t + l.lockout_ttl))
  unfolding record_failure_entry is_locked_entry
  fail_all-locks ts t now e ws w b =
      let r = fail_all-counts ts e ws (ground arith) in
      elim (Bool-cases (ltb e.window_end t)) [
        | inl c ↦ absurd (ground arith)
        | inr c ↦ rw r (ground arith, ground arith)
      ]

module _ {K : Type 0} (c : Client K) (l : Limits) where
  -- What IsLocked says of an account while Redis does not answer.
  local_lock : ℕ → Option LocalEntry → Bool
  local_lock now none = false
  local_lock now (some e) = is_locked_entry now e

  is_locked-local :
      (now : ℕ) (email : Text) (g : GuardState K)
      → ((k : K) → (c.exists (locked_key email) k).0 ≡ none)
      → (is_locked c l now email g).0 ≡ ok (local_lock now (lookup email g.entries))
  unfolding is_locked get_local_entry is_locked_entry local_lock
  is_locked-local now email g gone =
      let q = gone g.redis in
      elim (Option-cases (lookup email g.entries)) [
        | inl m ↦ ground arith
        | inr (e, m) ↦ ground arith
      ]

  entry_locks :
      (t : ℕ) (x : LocalEntry)
      → ◌≡◌ {A = Result Error Bool} (ok (record_failure_entry t l x).0) (ok true)
      → (record_failure_entry t l x).1.locked_until ≡ t + l.lockout_ttl
  unfolding record_failure_entry
  entry_locks t x r = elim (Bool-cases (leb l.max_attempts ((renewed t l x).count + 1))) [
    | inl m ↦ ground (arith)
    | inr m ↦ absurd (ground (arith))
  ]

  -- A failure that is counted here and reaches the limit is stored as locked.
  record_locally-true :
      (t : ℕ) (email : Text) (g : GuardState K)
      → (record_locally c l t email g).0 ≡ ok true
      → (e : LocalEntry) × (lookup email (record_locally c l t email g).1.entries ≡ some e)
        × (e.locked_until ≡ t + l.lockout_ttl)
  unfolding record_locally record_failure_entry
  record_locally-true t email g r =
      let x = (get_local_entry c l email g).0 in
      let y = (record_failure_entry t l x).1 in
      (
        y,
        lookup-insert_self email y (get_local_entry c l email g).1.entries,
        entry_locks t (get_local_entry c l email g).0 r,
      )

  -- The guard after a script that Redis did not answer.
  abbrev away : ℕ → Text → GuardState K → GuardState K
  away t email g = record g {
    redis = (c.eval (incr_expire c (attempts_key email) (seconds l.window)) g.redis).1;
  }

  failed :
      (t : ℕ) (email : Text) (g : GuardState K)
      → ((f : K → ℕ × K) (k : K) → (c.eval f k).0 ≡ none)
      → record_failure c l t email g ≡ record_locally c l t email (away t email g)
  unfolding record_failure
  failed t email g down =
      let q = down (incr_expire c (attempts_key email) (seconds l.window)) g.redis in ground arith

  -- While Redis does not answer, an account that RecordFailure reported as locked is locked for
  -- the whole lockout.
  pub record_failure-is_locked :
      (t now : ℕ) (email : Text) (g : GuardState K)
      → ((f : K → ℕ × K) (k : K) → (c.eval f k).0 ≡ none)
      → ((k : K) → (c.exists (locked_key email) k).0 ≡ none)
      → (record_failure c l t email g).0 ≡ ok true
      → now < t + l.lockout_ttl
      → (is_locked c l now email (record_failure c l t email g).1).0 ≡ ok true
  unfolding record_failure is_locked_entry local_lock
  record_failure-is_locked t now email g down gone r b =
      let same : record_failure c l t email g ≡ record_locally c l t email (away t email g) =
        failed t email g down in
      let (e, at, until) =
        record_locally-true t email (away t email g) (sym (ap (λ x. x.0) same) ∙ r) in
      is_locked-local now email (record_failure c l t email g).1 gone
      ∙ ap (λ x. ok (local_lock now (lookup email x.1.entries))) same
      ∙ ap (λ o. ok (local_lock now o)) at
      ∙ ap ok (lt→ltb now e.locked_until (ground arith))

  -- Without Redis, an account whose counters were reset is not locked.
  pub reset-is_locked :
      (now : ℕ) (email : Text) (g : GuardState K)
      → ((k : K) → (c.exists (locked_key email) k).0 ≡ none)
      → (is_locked c l now email (reset c l email g)).0 ≡ ok false
  unfolding reset local_lock
  reset-is_locked now email g gone =
      is_locked-local now email (reset c l email g) gone
      ∙ ap (λ o. ok (local_lock now o)) (lookup-delete_self email g.entries)
