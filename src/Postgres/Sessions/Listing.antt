-- ===== src/Postgres/Sessions/Listing.antt =====
-- internal/adapters/storage/postgres/session.go: the order and the rows of ListByUserID.
use auth_service.Prelude.{
  ℕ, ◌≤◌, ◌≡◌, ◌↔◌, ◌⊎◌, inl, inr, sym, ap, ◌∙◌, subst, Text, List, [], ◌∷◌, leb, leb→le, Bool,
  true, false, Bool-cases, ◌==◌, eq_iff, arith, bytes,
}
use auth_service.Models.{Session}
use auth_service.Ports.{ok}
use auth_service.Postgres.{Pool, with_uuid}
use auth_service.Postgres.Connection.{PoolLaws, with_uuid-ok}
use auth_service.Postgres.Rows.{select_rows}
use auth_service.Postgres.Rows.Selection.{Mem}
use auth_service.Postgres.Sessions.{place, order_rows, select_sessions, with_error, list_by_user_id}
use auth_service.Postgres.Sessions.Deletion.{map_error-ok}

-- No session was used later than this.
abbrev pub UsedBy : ℕ → List Session → Type 0
UsedBy n [] = Unit {0}
UsedBy n (x ∷ xs) = (x.last_used_at ≤ n) × UsedBy n xs

-- The latest used first.
abbrev pub LatestFirst : List Session → Type 0
LatestFirst [] = Unit {0}
LatestFirst (x ∷ xs) = UsedBy x.last_used_at xs × LatestFirst xs

UsedBy-later : (n m : ℕ) (xs : List Session) → n ≤ m → UsedBy n xs → UsedBy m xs
UsedBy-later n m [] l h = tt
UsedBy-later n m (x ∷ xs) l (b, h) = (omega arith, UsedBy-later n m xs l h)

UsedBy-place :
    (n : ℕ) (x : Session) (xs : List Session)
    → x.last_used_at ≤ n
    → UsedBy n xs
    → UsedBy n (place x xs)
unfolding place
UsedBy-place n x [] l h = (l, tt)
UsedBy-place n x (y ∷ ys) l (b, h) = elim (Bool-cases (leb y.last_used_at x.last_used_at)) [
  | inl e ↦ rw (place, e) (l, (b, h))
  | inr e ↦ rw (place, e) (b, UsedBy-place n x ys l h)
]

later : (x y : ℕ) → leb y x ≡ false → x ≤ y
later x y e = ground arith

place-LatestFirst : (x : Session) (xs : List Session) → LatestFirst xs → LatestFirst (place x xs)
unfolding place
place-LatestFirst x [] h = (tt, tt)
place-LatestFirst x (y ∷ ys) (b, h) = elim (Bool-cases (leb y.last_used_at x.last_used_at)) [
  | inl e ↦
      let l = leb→le y.last_used_at x.last_used_at e in
      rw (place, e) ((l, UsedBy-later y.last_used_at x.last_used_at ys l b), (b, h))
  | inr e ↦
      rw (place, e)
        (
          UsedBy-place y.last_used_at x ys (later x.last_used_at y.last_used_at e) b,
          place-LatestFirst x ys h,
        )
]

order_rows-LatestFirst : (xs : List Session) → LatestFirst (order_rows xs)
unfolding order_rows
order_rows-LatestFirst [] = tt
order_rows-LatestFirst (x ∷ xs) = place-LatestFirst x (order_rows xs) (order_rows-LatestFirst xs)

place-Mem : (z x : Session) (xs : List Session) → Mem z (place x xs) ↔ ((x ≡ z) ⊎ Mem z xs)
unfolding place
place-Mem z x [] = (λ m. m, λ m. m)
place-Mem z x (y ∷ ys) = elim (Bool-cases (leb y.last_used_at x.last_used_at)) [
  | inl e ↦ rw (place, e) (λ m. m, λ m. m)
  | inr e ↦ rw (place, e) (swapped (place-Mem z x ys))
]
  where
    swapped :
        (Mem z (place x ys) ↔ ((x ≡ z) ⊎ Mem z ys))
        → ((y ≡ z) ⊎ Mem z (place x ys)) ↔ ((x ≡ z) ⊎ ((y ≡ z) ⊎ Mem z ys))
    swapped (to, from) = (
      λ m. elim m [
        | inl e ↦ inr (inl e)
        | inr n ↦ elim (to n) [ inl e ↦ inl e | inr k ↦ inr (inr k) ]
      ],
      λ m. elim m [
        | inl e ↦ inr (from (inl e))
        | inr n ↦ elim n [ inl e ↦ inl e | inr k ↦ inr (from (inr k)) ]
      ],
    )

order_rows-Mem : (z : Session) (xs : List Session) → Mem z (order_rows xs) ↔ Mem z xs
unfolding order_rows
order_rows-Mem z [] = (λ m. m, λ m. m)
order_rows-Mem z (x ∷ xs) =
    let (to, from) = place-Mem z x (order_rows xs) in
    let (to', from') = order_rows-Mem z xs in
    (
      λ m. elim (to m) [ inl e ↦ inl e | inr n ↦ inr (to' n) ],
      λ m. elim m [ inl e ↦ from (inl e) | inr n ↦ from (inr (from' n)) ],
    )

select_rows-Mem_iff :
    (p : Session → Bool) (z : Session) (xs : List Session)
    → Mem z (select_rows p xs) ↔ (Mem z xs × (p z ≡ true))
unfolding select_rows
select_rows-Mem_iff p z [] = (λ m. absurd m, λ (m, e). absurd m)
select_rows-Mem_iff p z (x ∷ xs) =
    let (to, from) = select_rows-Mem_iff p z xs in
    elim (Bool-cases (p x)) [
      | inl e ↦
          rw (select_rows, e)
            (
              λ m. elim m [
                | inl s ↦ (inl s, ap p (sym s) ∙ e)
                | inr n ↦ let (k, q) = to n in (inr k, q)
              ],
              λ (m, q). elim m [ inl s ↦ inl s | inr n ↦ inr (from (n, q)) ],
            )
      | inr e ↦
          rw (select_rows, e)
            (
              λ m. let (k, q) = to m in (inr k, q),
              λ (m, q). elim m [
                | inl s ↦ absurd (let c : false ≡ true = sym e ∙ ap p s ∙ q in cc)
                | inr n ↦ from (n, q)
              ],
            )
    ]

module _ {K : Type 0} (p : Pool K) (laws : PoolLaws p) where
  open laws use {tables, query_ok}

  -- With a connection that keeps its laws: when ListByUserID returns sessions, they are exactly the
  -- rows of this user, and each was last used no earlier than those behind it.
  pub list_by_user_id_lists :
      (u : Text) (k : K) (xs : List Session)
      → (list_by_user_id p u k).0 ≡ ok xs
      → LatestFirst xs × ((z : Session) → Mem z xs ↔ (Mem z (tables k).sessions × (z.user_id ≡ u)))
  unfolding list_by_user_id select_sessions
  list_by_user_id_lists u k xs e =
      let f = with_uuid (p.is_uuid u) (select_sessions u) in
      let r = query_ok f k xs (map_error-ok (with_error (bytes "list sessions")) _ xs e) in
      let s = with_uuid-ok (p.is_uuid u) (select_sessions u) (tables k) xs _ r in
      let same : order_rows (select_rows (λ x. x.user_id == u) (tables k).sessions) ≡ xs =
        ground arith in
      subst
        (λ w.
          LatestFirst w × ((z : Session) → Mem z w ↔ (Mem z (tables k).sessions × (z.user_id ≡ u))))
        same
        (
          order_rows-LatestFirst (select_rows (λ x. x.user_id == u) (tables k).sessions),
          λ z. members u z (tables k).sessions,
        )
    where
      members :
          (u : Text) (z : Session) (rows : List Session)
          → Mem z (order_rows (select_rows (λ x. x.user_id == u) rows))
            ↔ (Mem z rows × (z.user_id ≡ u))
      members u z rows =
          let (to, from) = order_rows-Mem z (select_rows (λ x. x.user_id == u) rows) in
          let (to', from') = select_rows-Mem_iff (λ x. x.user_id == u) z rows in
          (
            λ m. let (n, q) = to' (to m) in (n, (eq_iff z.user_id u).0 q),
            λ (n, q). from (from' (n, (eq_iff z.user_id u).1 q)),
          )
