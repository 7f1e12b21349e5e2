-- ===== src/Memory/Users/Coherence.antt =====
-- internal/adapters/storage/memory/user.go: both maps lead to one record of a user.
use auth_service.Prelude.{
  ℕ, ◌≡◌, sym, ◌∙◌, ap, inl, inr, Text, none, some, length, if◌then◌else◌, ◌∷◌, ◌==◌, eq_iff,
  eq_refl, Option-cases, Bool-cases, arith, eqb_iff,
}
use auth_service.Prelude.Heaps.{load, store, load-lt, load-cons, load-new, load-store}
use auth_service.Prelude.Maps.{lookup, insert, lookup-insert}
use auth_service.Models.{User, Stamp}
use auth_service.Ports.{ok}
use auth_service.Memory.Users.{Users, new_user_store, create, get_by_email, update_password_hash}

-- Every address leads to a record that carries it, and that its ID leads to as well.
pub record IsValid (s : Users) : Type 0 where
  pub emails :
      (e : Text) (p : ℕ)
      → lookup e s.by_email ≡ some p
      → (u : User) × (u.email ≡ e) × (load p s.heap ≡ some u) × (lookup u.id s.by_id ≡ some p)

pub new_user_store-IsValid : IsValid new_user_store
unfolding lookup
new_user_store-IsValid = record { emails = λ e p h. ground arith }

module _ (s : Users) (v : IsValid s) where
  -- Create keeps the two maps coherent, where the ID that it draws is in no use.
  pub create-IsValid :
      (t : Stamp) (email h : Text) → lookup t.uuid s.by_id ≡ none → IsValid (create t email h s).1
  unfolding create
  create-IsValid t email h fresh = elim (Option-cases (lookup email s.by_email)) [
    | inr (p, e) ↦ rw (e, create) v
    | inl e ↦ rw (e, create) (record { emails = λ k q r. new k q r })
  ]
    where
      u : User
      u = record {
        id = t.uuid;
        email = email;
        password_hash = h;
        created_at = t.now;
        updated_at = t.later;
      }

      new :
          (k : Text) (q : ℕ)
          → lookup k (insert email (length s.heap) s.by_email) ≡ some q
          → (w : User) × (w.email ≡ k)
            × (load q (u ∷ s.heap) ≡ some w)
            × (lookup w.id (insert t.uuid (length s.heap) s.by_id) ≡ some q)
      new k q r = elim (Bool-cases (email == k)) [
        | inl m ↦ (
          u,
          (eq_iff email k).0 m,
          ground (arith, lookup-insert email k (length s.heap) s.by_email, load-new u s.heap),
          ground (
            arith,
            lookup-insert email k (length s.heap) s.by_email,
            lookup-insert t.uuid t.uuid (length s.heap) s.by_id,
            eq_refl t.uuid,
          ),
        )
        | inr m ↦
            let old : lookup k s.by_email ≡ some q =
              ground (arith, lookup-insert email k (length s.heap) s.by_email) in
            let (w, i, at, id) = v.emails k q old in
            (
              w,
              i,
              load-cons q u s.heap at,
              ground (arith, lookup-insert t.uuid w.id (length s.heap) s.by_id, eq_iff t.uuid w.id),
            )
      ]

  write :
      (t : Stamp) (h : Text) (u : User) (p : ℕ)
      → lookup u.id s.by_id ≡ some p
      → load p s.heap ≡ some u
      → update_password_hash t u.id h s ≡ (
        ok tt,
        record s { heap = store p (record u { password_hash = h; updated_at = t.now }) s.heap },
      )
  unfolding update_password_hash
  write t h u p i l = ground arith

  -- A write at the address of an email address is seen through that address alone.
  seen :
      (x : User) (email k : Text) (p : ℕ) (w : User)
      → lookup email s.by_email ≡ some p
      → (w.email ≡ email) × (load p s.heap ≡ some w)
      → (get_by_email k (record s { heap = store p x s.heap })).0
        ≡ (if email == k then ok x else (get_by_email k s).0)
  unfolding get_by_email
  seen x email k p w at (i, l) = elim (Option-cases (lookup k s.by_email)) [
    | inl n ↦ ground (arith, eq_iff email k)
    | inr (q, m) ↦
        let (w', j, l', _) = v.emails k q m in
        let distinct : p ≡ q → email ≡ k = λ c. sym i ∙ record_email p q w w' l l' c ∙ j in
        ground (arith, load-store p q x s.heap (load-lt p s.heap l), eq_iff email k, eqb_iff p q)
  ]
    where
      record_email :
          (p q : ℕ) (a b : User)
          → load p s.heap ≡ some a
          → load q s.heap ≡ some b
          → p ≡ q
          → a.email ≡ b.email
      record_email p q a b la lb c = ground arith

  -- In a store whose maps are coherent: an update of a password through the ID of a record that
  -- an address leads to succeeds, is seen through that address, and leaves what every other
  -- address leads to.
  pub update_password_hash-get_by_email :
      (t : Stamp) (email h k : Text) (u : User)
      → (get_by_email email s).0 ≡ ok u
      → ((update_password_hash t u.id h s).0 ≡ ok tt)
        × ((get_by_email k (update_password_hash t u.id h s).1).0 ≡ (
            if email == k
            then ok (record u { password_hash = h; updated_at = t.now })
            else (get_by_email k s).0))
  unfolding get_by_email update_password_hash
  update_password_hash-get_by_email t email h k u e =
      elim (Option-cases (lookup email s.by_email)) [
        | inl n ↦ ground arith
        | inr (p, at) ↦
            let (w, i, l, id) = v.emails email p at in
            let same : w ≡ u = ground arith in
            let r : update_password_hash t u.id h s ≡ (
              ok tt,
              record s {
                heap = store p (record u { password_hash = h; updated_at = t.now }) s.heap;
              },
            ) =
              write t h u p (ground arith) (ground arith) in
            (
              ap (λ x. x.0) r,
              ap (λ x. (get_by_email k x.1).0) r
                  ∙ seen (record u { password_hash = h; updated_at = t.now }) email k p w at (i, l),
            )
      ]
