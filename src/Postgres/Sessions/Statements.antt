-- ===== src/Postgres/Sessions/Statements.antt =====
-- The SQL of internal/adapters/storage/postgres/session.go: what each statement does to the rows.
use auth_service.Prelude.{
  ◌≡◌, ◌≢◌, ◌⊎◌, inl, inr, refl, sym, ap, ◌∙◌, subst, Text, Option, none, some, List, [], ◌∷◌, map,
  Bool, true, false, ◌==◌, ◌&&◌, not, eq_iff, if◌then◌else◌, arith, Bool-cases, Option-cases,
}
use auth_service.Models.{Session, Stamp}
use auth_service.Ports.{Result, ok}
use auth_service.Ports.Laws.{listed, is_user, is_other}
use auth_service.Postgres.{Tables, DbError}
use auth_service.Postgres.Rows.{
  row_of, Unique, select_rows, row_of-delete_rows, delete_rows-Unique, key-row_of,
}
use auth_service.Postgres.Rows.Selection.{
  passes, row_of-Mem, Mem-row_of, select_rows-Mem, listed-select_rows,
}
use auth_service.Postgres.Sessions.{inserted, is_user_id, insert_session, delete_sessions}

abbrev pub hash_of : Session → Text
hash_of x = x.token_hash

abbrev pub id_of : Session → Text
id_of x = x.id

abbrev pub user_of : Option Session → Option Text
user_of none = none
user_of (some x) = some x.user_id

-- The user to whom the session of a hash belongs.
unfoldable pub owner : Text → Tables → Option Text
unfolding row_of
owner k ts = user_of (row_of hash_of k ts.sessions)

-- UNIQUE (token_hash), PRIMARY KEY (id), and no session under the empty text.
pub record Sound (ts : Tables) : Type 0 where
  pub by_hash : Unique hash_of ts.sessions
  pub by_id : Unique id_of ts.sessions
  pub named : row_of hash_of [] ts.sessions ≡ none

pub owner-row :
    (k : Text) (ts : Tables) (x : Session)
    → row_of hash_of k ts.sessions ≡ some x
    → owner k ts ≡ some x.user_id
unfolding owner
owner-row k ts x e = rw e

pub owner-absent :
    (k : Text) (ts : Tables) → row_of hash_of k ts.sessions ≡ none → owner k ts ≡ none
unfolding owner
owner-absent k ts e = rw e

module _ (q : Session → Bool) (ts : Tables) (v : Sound ts) where
  pub delete_sessions-Sound : Sound (delete_sessions q ts).1
  unfolding delete_sessions
  delete_sessions-Sound = record {
    by_hash = delete_rows-Unique hash_of q ts.sessions v.by_hash;
    by_id = delete_rows-Unique id_of q ts.sessions v.by_id;
    named = ground (arith, row_of-delete_rows hash_of q [] ts.sessions v.by_hash, v.named);
  }

  -- The rows that pass the condition are gone, and no others.
  pub owner-delete_sessions :
      (k : Text)
      → owner k (delete_sessions q ts).1
        ≡ (if passes q (row_of hash_of k ts.sessions) then none else owner k ts)
  unfolding owner delete_sessions
  owner-delete_sessions k = elim (Option-cases (row_of hash_of k ts.sessions)) [
    | inl e ↦ ground (arith, row_of-delete_rows hash_of q k ts.sessions v.by_hash)
    | inr (x, e) ↦ ground (arith, row_of-delete_rows hash_of q k ts.sessions v.by_hash)
  ]

  pub owner-delete_only :
      (k u : Text) → owner k (delete_sessions q ts).1 ≡ some u → owner k ts ≡ some u
  owner-delete_only k u e = ground (arith, owner-delete_sessions k)

  pub listed-delete_sessions :
      (k : Text) (hs : List Text)
      → (delete_sessions q ts).0 ≡ ok hs
      → listed k hs ≡ passes q (row_of hash_of k ts.sessions)
  unfolding delete_sessions
  listed-delete_sessions k hs e =
      let same : map hash_of (select_rows q ts.sessions) ≡ hs = cc in
      ap (listed k) (sym same) ∙ listed-select_rows hash_of q k ts.sessions v.by_hash

  -- The first hash that is returned is that of a row which passed.
  pub delete_sessions-first :
      (h : Text) (hs : List Text)
      → (delete_sessions q ts).0 ≡ ok (h ∷ hs)
      → (x : Session) × (row_of hash_of h ts.sessions ≡ some x)
        × (row_of id_of x.id ts.sessions ≡ some x)
        × (q x ≡ true)
  unfolding delete_sessions
  delete_sessions-first h hs e = by _ refl e
    where
      by :
          (xs : List Session)
          → select_rows q ts.sessions ≡ xs
          → ◌≡◌ {A = Result DbError (List Text)} (ok (map hash_of xs)) (ok (h ∷ hs))
          → (x : Session) × (row_of hash_of h ts.sessions ≡ some x)
            × (row_of id_of x.id ts.sessions ≡ some x)
            × (q x ≡ true)
      by [] s r = absurd (cc)
      by (x ∷ xs) s r =
          let (m, p) = select_rows-Mem q ts.sessions xs x s in
          let same : x.token_hash ≡ h = cc in
          (
            x,
            subst (λ j. row_of hash_of j ts.sessions ≡ some x) same
                (Mem-row_of hash_of ts.sessions x v.by_hash m),
            Mem-row_of id_of ts.sessions x v.by_id m,
            p,
          )

-- The conditions of the DELETE statements, on what a hash leads to.
pub passes-user :
    (u k : Text) (ts : Tables)
    → passes (λ x. x.user_id == u) (row_of hash_of k ts.sessions) ≡ is_user u (owner k ts)
unfolding owner
passes-user u k ts = elim (Option-cases (row_of hash_of k ts.sessions)) [
  | inl e ↦ ground arith
  | inr (x, e) ↦ ground arith
]

pub passes-hash :
    (h k : Text) (ts : Tables)
    → (if passes (λ x. x.token_hash == h) (row_of hash_of k ts.sessions) then none else owner k ts)
      ≡ (if h == k then none else owner k ts)
unfolding owner
passes-hash h k ts = elim (Option-cases (row_of hash_of k ts.sessions)) [
  | inl e ↦ ground arith
  | inr (x, e) ↦
      ground (arith, key-row_of hash_of k ts.sessions x e, eq_iff x.token_hash h, eq_iff h k)
]

pub passes-other :
    (u keep k : Text) (ts : Tables)
    → passes (λ x. x.user_id == u && not (x.token_hash == keep)) (row_of hash_of k ts.sessions)
      ≡ is_other u keep k (owner k ts)
unfolding owner
passes-other u keep k ts = elim (Option-cases (row_of hash_of k ts.sessions)) [
  | inl e ↦ ground arith
  | inr (x, e) ↦
      let same = key-row_of hash_of k ts.sessions x e in ground (arith, ap (λ j. j == keep) same)
]

-- The row of one ID is the row of one hash.
pub passes-id :
    (i u h k : Text) (ts : Tables) (x : Session)
    → Sound ts
    → row_of hash_of h ts.sessions ≡ some x
    → row_of id_of x.id ts.sessions ≡ some x
    → (x.id == i && x.user_id == u) ≡ true
    → passes (λ y. y.id == i && y.user_id == u) (row_of hash_of k ts.sessions)
      ≡ (if h == k then true else false)
passes-id i u h k ts x v hx ix p = elim (Option-cases (row_of hash_of k ts.sessions)) [
  | inl e ↦ ground (arith, eq_iff h k)
  | inr (y, e) ↦ elim (Bool-cases (h == k)) [
    | inl m ↦
        let same : h ≡ k = (eq_iff h k).0 m in
        let one : x ≡ y = some_inj (sym hx ∙ ap (λ j. row_of hash_of j ts.sessions) same ∙ e) in
        rw (e, m) (ap (λ z. z.id == i && z.user_id == u) (sym one) ∙ p)
    | inr m ↦ elim (Bool-cases (y.id == i)) [
      | inr n ↦ ground arith
      | inl n ↦
          let xi : x.id ≡ i = (eq_iff x.id i).0 (and_left (x.id == i) (x.user_id == u) p) in
          let yi : y.id ≡ i = (eq_iff y.id i).0 n in
          let iy = Mem-row_of id_of ts.sessions y v.by_id (row_of-Mem hash_of k ts.sessions y e) in
          let one : x ≡ y =
            some_inj (sym ix ∙ ap (λ j. row_of id_of j ts.sessions) (xi ∙ sym yi) ∙ iy) in
          let apart : h ≡ k =
            sym (key-row_of hash_of h ts.sessions x hx)
            ∙ ap hash_of one
            ∙ key-row_of hash_of k ts.sessions y e in
          absurd (ground (arith, eq_iff h k))
    ]
  ]
]
  where
    some_inj : {a b : Session} → ◌≡◌ {A = Option Session} (some a) (some b) → a ≡ b
    some_inj r = cc

    and_left : (a b : Bool) → (a && b) ≡ true → a ≡ true
    and_left true b r = refl
    and_left false b r = r

module _ (t : Stamp) (x : Session) (ts : Tables) where
  -- An INSERT adds the row, or fails and changes nothing.
  pub insert_session-cases :
      ((insert_session t x ts).1 ≡ ts
        × ((y : Session) (ys : List Session) → (insert_session t x ts).0 ≢ ok (y ∷ ys)))
      ⊎ ((insert_session t x ts
            ≡ (ok (inserted t x ∷ []), record ts { sessions = inserted t x ∷ ts.sessions }))
          × (row_of id_of t.uuid ts.sessions ≡ none)
          × (row_of hash_of x.token_hash ts.sessions ≡ none))
  unfolding insert_session
  insert_session-cases = elim (Bool-cases (is_user_id x.user_id ts.users)) [
    | inr e ↦ inl (ground arith, λ y ys c. ground arith)
    | inl e ↦ elim (Option-cases (row_of id_of t.uuid ts.sessions)) [
      | inr (y, f) ↦ inl (ground arith, λ z zs c. ground arith)
      | inl f ↦ elim (Option-cases (row_of hash_of x.token_hash ts.sessions)) [
        | inr (y, g) ↦ inl (ground arith, λ z zs c. ground arith)
        | inl g ↦ inr (ground arith, f, g)
      ]
    ]
  ]

  pub insert_session-Sound : Sound ts → x.token_hash ≢ [] → Sound (insert_session t x ts).1
  unfolding row_of
  insert_session-Sound v n = elim insert_session-cases [
    | inl (e, _) ↦ subst Sound (sym e) v
    | inr (e, i, h) ↦ subst Sound (sym (ap (λ r. r.1) e)) (record {
      by_hash = (h, v.by_hash);
      by_id = (i, v.by_id);
      named = ground (arith, v.named, eq_iff x.token_hash []);
    })
  ]

  pub owner-insert_session :
      (k : Text) (y : Session) (ys : List Session)
      → (insert_session t x ts).0 ≡ ok (y ∷ ys)
      → owner k (insert_session t x ts).1
        ≡ (if x.token_hash == k then some x.user_id else owner k ts)
  unfolding owner row_of
  owner-insert_session k y ys r = elim insert_session-cases [
    | inl (_, never) ↦ absurd (never y ys r)
    | inr (e, i, h) ↦ ap (λ r. owner k r.1) e ∙ ground arith
  ]

  pub owner-insert_only :
      (k u : Text)
      → owner k (insert_session t x ts).1 ≡ some u
      → (owner k ts ≡ some u) ⊎ ((x.token_hash ≡ k) × (x.user_id ≡ u))
  unfolding owner row_of
  owner-insert_only k u r = elim insert_session-cases [
    | inl (e, _) ↦ inl (ap (owner k) (sym e) ∙ r)
    | inr (e, i, h) ↦
        let r' = ap (λ s. owner k s.1) (sym e) ∙ r in
        elim (Bool-cases (x.token_hash == k)) [
          | inl m ↦ inr ((eq_iff x.token_hash k).0 m, ground arith)
          | inr m ↦ inl (ground arith)
        ]
  ]
