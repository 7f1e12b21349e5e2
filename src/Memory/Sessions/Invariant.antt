-- ===== src/Memory/Sessions/Invariant.antt =====
-- internal/adapters/storage/memory/session.go: the two maps of the store index the same sessions.
use auth_service.Prelude.{
  ℕ, ◌≡◌, refl, ◌∙◌, ap, inl, inr, Text, none, some, length, if◌then◌else◌, ◌==◌, eq_iff, arith,
  eqb, true, false, ◌≢◌, ne→eq_false, ◌⊎◌, eqb_iff, Bool-cases,
}
use auth_service.Prelude.Heaps.{load, store, load-lt, load-cons, load-new, load-store}
use auth_service.Prelude.Maps.{
  In, lookup, lookup-delete, lookup-insert, lookup-insert_self, In-delete, In-insert,
}
use auth_service.Models.{Session}
use auth_service.Memory.Sessions.{Heap, Sessions, new_session_store, put, drop}

-- The record at `p` is filed under its own ID and under its own hash.
abbrev pub Filed : Sessions → ℕ → Session → Type 0
Filed s p x =
    (load p s.heap ≡ some x)
    × (lookup x.id s.by_id ≡ some p)
    × (lookup x.token_hash s.by_hash ≡ some p)

-- Every entry of either map leads to a session that is filed in both.
pub record IsValid (s : Sessions) : Type 0 where
  pub ids : (i : Text) (p : ℕ) → In i p s.by_id → (x : Session) × (x.id ≡ i) × Filed s p x
  pub hashes :
      (h : Text) (p : ℕ)
      → lookup h s.by_hash ≡ some p
      → (x : Session) × (x.token_hash ≡ h) × Filed s p x

pub new_session_store-IsValid : IsValid new_session_store
unfolding lookup
new_session_store-IsValid = record { ids = λ i p h. absurd h; hashes = λ h p e. ground arith }

-- The record at `p`, and no other, may be filed under its ID and its hash.
abbrev pub Alone : Sessions → ℕ → Session → Type 0
Alone s p x =
    (load p s.heap ≡ some x)
    × ((q : ℕ) → lookup x.id s.by_id ≡ some q → p ≡ q)
    × ((q : ℕ) → lookup x.token_hash s.by_hash ≡ some q → p ≡ q)

pub Filed-Alone : (s : Sessions) (p : ℕ) (x : Session) → Filed s p x → Alone s p x
Filed-Alone s p x (at, by_id, by_hash) = (at, λ q e. ground arith, λ q e. ground arith)

-- Two addresses in the heap that are one hold one record.
same : (h : Heap) {p q : ℕ} {x y : Session} → load p h ≡ some x → load q h ≡ some y → p ≡ q → x ≡ y
same h {p} {q} {x} {y} a b e = ground arith

module _ (s : Sessions) where
  -- Removing one session leaves the others filed.
  pub drop-Filed :
      (p q : ℕ) (x y : Session)
      → Alone s p x
      → Filed s q y
      → (x.id ≢ y.id) ⊎ (x.token_hash ≢ y.token_hash)
      → Filed (drop x.id x.token_hash s) q y
  unfolding drop
  drop-Filed p q x y (at, id_at, hash_at) (ya, yi, yh) apart = (
    ya,
    rw (lookup-delete, ne→eq_false x.id y.id (λ e. differ (id_at q (rw e yi)) apart)) yi,
    rw
        (
          lookup-delete,
          ne→eq_false x.token_hash y.token_hash (λ e. differ (hash_at q (rw e yh)) apart),
        )
        yh,
  )
    where
      differ : p ≡ q → (x.id ≢ y.id) ⊎ (x.token_hash ≢ y.token_hash) → ⊥
      differ e (inl ne) = ne (ap (λ (z : Session). z.id) (same s.heap at ya e))
      differ e (inr ne) = ne (ap (λ (z : Session). z.token_hash) (same s.heap at ya e))

  pub drop-Alone : (i h : Text) (q : ℕ) (y : Session) → Alone s q y → Alone (drop i h s) q y
  unfolding drop
  drop-Alone i h q y (at, id_at, hash_at) = (
    at,
    λ r e. id_at r (ground (arith, lookup-delete i y.id s.by_id)),
    λ r e. hash_at r (ground (arith, lookup-delete h y.token_hash s.by_hash)),
  )

module _ (s : Sessions) (v : IsValid s) where
  -- Removing a session from both maps keeps them in step.
  pub drop-IsValid : (p : ℕ) (x : Session) → Alone s p x → IsValid (drop x.id x.token_hash s)
  unfolding drop
  drop-IsValid p x alone = record {
    ids = λ i q h.
        let (ne, old) = In-delete x.id i q s.by_id h in
        let (y, yi, filed) = v.ids i q old in
        (y, yi, drop-Filed s p q x y alone filed (inl (λ e. ne (e ∙ yi))));
    hashes = λ h q e.
        let (y, yh, filed) =
          v.hashes h q (ground (arith, lookup-delete x.token_hash h s.by_hash)) in
        let ne : x.token_hash ≢ y.token_hash =
          λ c. ground (arith, lookup-delete x.token_hash h s.by_hash, eq_iff x.token_hash h) in
        (y, yh, drop-Filed s p q x y alone filed (inr ne));
  }

  -- A session that was filed stays so when another comes under a new ID and a new hash.
  put-Filed :
      (x : Session)
      → lookup x.id s.by_id ≡ none
      → lookup x.token_hash s.by_hash ≡ none
      → (q : ℕ) (y : Session) → Filed s q y
      → Filed (put x s) q y
  unfolding put
  put-Filed x no_id no_hash q y (ya, yi, yh) = (
    load-cons q x s.heap ya,
    rw lookup-insert (ground (arith, yi, no_id, eq_iff x.id y.id)),
    rw lookup-insert (ground (arith, yh, no_hash, eq_iff x.token_hash y.token_hash)),
  )

  put_new : (x : Session) → Filed (put x s) (length s.heap) x
  unfolding put
  put_new x = (load-new x s.heap, lookup-insert_self x.id _ _, lookup-insert_self x.token_hash _ _)

  -- Storing a session under a new ID and a new hash keeps the maps in step.
  pub put-IsValid :
      (x : Session)
      → lookup x.id s.by_id ≡ none
      → lookup x.token_hash s.by_hash ≡ none
      → IsValid (put x s)
  unfolding put
  put-IsValid x no_id no_hash = record {
    ids = λ i q h. new_or_old i q (In-insert x.id i _ q s.by_id h);
    hashes = λ h q e. by_hash h q (rw lookup-insert at e) (Bool-cases (x.token_hash == h));
  }
    where
      new_or_old :
          (i : Text) (q : ℕ)
          → ((x.id ≡ i) × (length s.heap ≡ q)) ⊎ ((x.id ≢ i) × In i q s.by_id)
          → (y : Session) × (y.id ≡ i) × Filed (put x s) q y
      new_or_old i q (inl (e, w)) = (x, e, rw (← w) (put_new x))
      new_or_old i q (inr (ne, old)) =
          let (y, yi, filed) = v.ids i q old in (y, yi, put-Filed x no_id no_hash q y filed)

      by_hash :
          (h : Text) (q : ℕ)
          → (if x.token_hash == h then some (length s.heap) else lookup h s.by_hash) ≡ some q
          → ((x.token_hash == h) ≡ true) ⊎ ((x.token_hash == h) ≡ false)
          → (y : Session) × (y.token_hash ≡ h) × Filed (put x s) q y
      by_hash h q e (inl hit) =
          let w : length s.heap ≡ q = ground arith in (x, (eq_iff _ _).0 hit, rw (← w) (put_new x))
      by_hash h q e (inr miss) =
          let (y, yh, filed) = v.hashes h q (ground arith) in
          (y, yh, put-Filed x no_id no_hash q y filed)

-- `y` is `x` but for the time of use.
abbrev pub Touched : Session → Session → Type 0
Touched x y = (y.id ≡ x.id) × (y.token_hash ≡ x.token_hash) × (y.user_id ≡ x.user_id)

module _ (s : Sessions) (p : ℕ) (x y : Session) (at : load p s.heap ≡ some x)
    (t : Touched x y) where
  abbrev written : Sessions
  written = record s { heap = store p y s.heap }

  -- A session that is filed stays so, if under new times, when its record is written.
  pub store-Filed :
      (q : ℕ) (z : Session) → Filed s q z → (z' : Session) × Touched z z' × Filed written q z'
  store-Filed q z (za, zi, zh) = elim (Bool-cases (eqb p q)) [
    | inl e ↦
        let w : x ≡ z = same s.heap at za ((eqb_iff p q).0 e) in
        let shown : load q (store p y s.heap) ≡ some y =
          rw (load-store p q y s.heap (load-lt p s.heap at), e) in
        (y, (ground arith, ground arith, ground arith), (shown, ground arith, ground arith))
    | inr e ↦
        let shown : load q (store p y s.heap) ≡ some z =
          rw (load-store p q y s.heap (load-lt p s.heap at), e) za in
        (z, (refl, refl, refl), (shown, zi, zh))
  ]

  -- Writing such a record keeps the maps in step.
  pub store-IsValid : IsValid s → IsValid written
  store-IsValid v = record {
    ids = λ i q h.
        let (z, zi, filed) = v.ids i q h in
        let (z', (same_id, same_hash, same_user), filed') = store-Filed q z filed in
        (z', same_id ∙ zi, filed');
    hashes = λ h q l.
        let (z, zh, filed) = v.hashes h q l in
        let (z', (same_id, same_hash, same_user), filed') = store-Filed q z filed in
        (z', same_hash ∙ zh, filed');
  }
