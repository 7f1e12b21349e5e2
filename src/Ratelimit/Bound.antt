-- ===== src/Ratelimit/Bound.antt =====
-- internal/lib/ratelimit/ratelimit.go: how many requests a window lets through.
use auth_service.Prelude.{
  ℕ, ◌+◌, ◌-◌, ◌*◌, ◌/◌, ◌≤◌, ◌≡◌, ◌⊎◌, inl, inr, refl, sym, ◌∙◌, ap, subst, Text, Option, none,
  some, List, [], ◌∷◌, leb, leb→le, true, false, Bool-cases, if◌then◌else◌, arith,
}
use auth_service.Redis.{Client, incr_expire}
use auth_service.Redis.Laws.{ScriptLaws, CountLaws, incr_expire-counts}
use auth_service.Ratelimit.{Limiter, Verdict, redis_key, allow}

-- Allow let the request through by its count, and not since Redis failed.
abbrev pub counted_in : Verdict → ℕ
counted_in v = if v.failed then 0 else if v.allowed then 1 else 0

module _ {K : Type 0} (c : Client K) where
  -- How many of the requests of a key at these times are let through by their count.
  unfoldable pub let_through : Limiter → Text → List ℕ → K → ℕ
  let_through l key [] k = 0
  let_through l key (t ∷ ts) k =
      let r = allow c l t key k in counted_in r.0 + let_through l key ts r.1

  abbrev pub AllIn : Limiter → Text → Text → List ℕ → Type 0
  AllIn l key window [] = Unit {0}
  AllIn l key window (t ∷ ts) = (redis_key l t key ≡ window) × AllIn l key window ts

  module _ (scripts : ScriptLaws c) (laws : CountLaws c) where
    open laws use {counts}
    open scripts use {eval_ok, eval_only}

    -- A count that was read lets the request through up to the limit.
    judged :
        (l : Limiter) (n : ℕ) → ((leb n l.limit ≡ true) × (n ≤ l.limit)) ⊎ (leb n l.limit ≡ false)
    judged l n = elim (Bool-cases (leb n l.limit)) [
      | inl e ↦ inl (e, leb→le n l.limit e)
      | inr e ↦ inr e
    ]

    -- What one request does to the count of its window.
    abbrev Counts : Limiter → Text → K → Verdict × K → Type 0
    Counts l window k r =
        ((counted_in r.0 ≡ 0) × (counts window k ≤ counts window r.1))
        ⊎ ((counted_in r.0 ≡ 1)
            × (counts window k + 1 ≤ l.limit)
            × (counts window r.1 ≡ counts window k + 1))

    allow-Counts :
        (l : Limiter) (t : ℕ) (key : Text) (k : K)
        → Counts l (redis_key l t key) k (allow c l t key k)
    unfolding allow
    allow-Counts l t key k = by r.0 refl
      where
        rk : Text
        rk = redis_key l t key

        f : K → ℕ × K
        f = incr_expire c rk (l.window * 2 / 1000000000)

        r : Option ℕ × K
        r = c.eval f k

        by :
            (o : Option ℕ)
            → r.0 ≡ o
            → Counts l rk k (elim o [
              | none ↦ (record { allowed = true; failed = true }, r.1)
              | some count ↦ (record { allowed = leb count l.limit; failed = false }, r.1)
            ])
        by none e = elim (eval_only f k) [
          | inl same ↦ let kept = ap (counts rk) same in inl (refl, omega arith)
          | inr ran ↦
              let after = (incr_expire-counts c laws rk (l.window * 2 / 1000000000) k).1 in
              let grown = ap (counts rk) ran in inl (refl, omega arith)
        ]
        by (some n) e =
            let ran = eval_ok f k n e in
            let (answer, after) = incr_expire-counts c laws rk (l.window * 2 / 1000000000) k in
            let n_is = sym (ap (λ w. w.0) ran) ∙ answer in
            let k_is = sym (ap (λ w. counts rk w.1) ran) ∙ after in
            elim (judged l n) [
              | inl (b, h) ↦ inr (rw b refl, omega arith, k_is)
              | inr b ↦ inl (rw b refl, omega arith)
            ]

    -- While Redis keeps its laws and no key expires, of any requests of one key within one window, at
    -- most as many are let through by their count as the limit leaves: the limit less the count that
    -- the window began with. Requests let through since Redis failed are not among them.
    pub let_through-limit :
        (l : Limiter) (key window : Text) (ts : List ℕ) (k : K)
        → AllIn l key window ts
        → let_through l key ts k ≤ l.limit - counts window k
    unfolding let_through
    let_through-limit l key window [] k h = omega arith
    let_through-limit l key window (t ∷ ts) k (same, h) =
        let rest = let_through-limit l key window ts (allow c l t key k).1 h in
        elim (subst (λ w. Counts l w k (allow c l t key k)) same (allow-Counts l t key k)) [
          | inl (e, g) ↦ ground (arith, e, g, rest)
          | inr (e, g, n) ↦ ground (arith, e, g, n, rest)
        ]
