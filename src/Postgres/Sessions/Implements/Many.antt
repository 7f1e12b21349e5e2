-- ===== src/Postgres/Sessions/Implements/Many.antt =====
-- internal/adapters/storage/postgres/session.go: the operations on the sessions of a user keep
-- the laws of ports.SessionStore.
use auth_service.Prelude.Lists.{◌==◌}
use auth_service.Prelude.{
  ◌≡◌, inl, inr, refl, sym, ap, ◌∙◌, subst, Text, none, some, List, [], ◌∷◌, Bool, ◌&&◌, not,
  eq_iff, if◌then◌else◌, arith, Bool-cases, bytes,
}
use auth_service.Models.{Session}
use auth_service.Ports.{ok}
use auth_service.Ports.Laws.{listed, is_user, is_other}
use auth_service.Postgres.{Tables, Pool, with_uuid}
use auth_service.Postgres.Connection.{PoolLaws, with_uuid-keeps, query-keeps}
use auth_service.Postgres.Rows.{row_of}
use auth_service.Postgres.Rows.Selection.{passes}
use auth_service.Postgres.Sessions.{
  delete_sessions, select_sessions, map_error, with_error, delete_all_by_user_id,
  delete_all_by_user_id_except, list_by_user_id,
}
use auth_service.Postgres.Sessions.Statements.{
  hash_of, owner, owner-absent, Sound, passes-user, passes-other,
}
use auth_service.Postgres.Sessions.Deletion.{
  map_error-ok, IsValid, owner_of, deletion-Sound, deletion-only, deletion-owner,
}

module _ {K : Type 0} (p : Pool K) (laws : PoolLaws p) where
  open laws use {tables, query_ok}

  pub delete_all-IsValid :
      (u : Text) (k : K) → IsValid p laws k → IsValid p laws (delete_all_by_user_id p u k).1
  unfolding delete_all_by_user_id
  delete_all-IsValid u k v = deletion-Sound p laws (p.is_uuid u) (λ x. x.user_id == u) k v

  pub delete_all_only :
      (u : Text) (k : K) (j w : Text)
      → IsValid p laws k
      → owner_of p laws j (delete_all_by_user_id p u k).1 ≡ some w
      → owner_of p laws j k ≡ some w
  unfolding delete_all_by_user_id
  delete_all_only u k j w v e = deletion-only p laws (p.is_uuid u) (λ x. x.user_id == u) k v j w e

  pub delete_all_ok :
      (u : Text) (hs : List Text) (k : K) (j : Text)
      → IsValid p laws k
      → (delete_all_by_user_id p u k).0 ≡ ok hs
      → (listed j hs ≡ is_user u (owner_of p laws j k))
        × (owner_of p laws j (delete_all_by_user_id p u k).1
            ≡ (if is_user u (owner_of p laws j k) then none else owner_of p laws j k))
  unfolding delete_all_by_user_id
  delete_all_ok u hs k j v e =
      let q : Session → Bool = λ x. x.user_id == u in
      let r = map_error-ok (with_error (bytes "delete all sessions")) _ hs e in
      let (l, o) = deletion-owner p laws (p.is_uuid u) q k v hs j r in
      let c = passes-user u j (tables k) in
      (l ∙ c, o ∙ ap (λ b. if b then none else owner j (tables k)) c)

  -- The condition of DeleteAllByUserIDExcept.
  abbrev pub others : Text → Text → Session → Bool
  others u [] x = x.user_id == u
  others u (c ∷ keep) x = x.user_id == u && not (x.token_hash == c ∷ keep)

  passes-others :
      (u keep j : Text) (ts : Tables)
      → Sound ts
      → passes (others u keep) (row_of hash_of j ts.sessions) ≡ is_other u keep j (owner j ts)
  passes-others u (c ∷ keep) j ts v = passes-other u (c ∷ keep) j ts
  passes-others u [] j ts v = passes-user u j ts ∙ elim (Bool-cases (j == [])) [
    | inl m ↦
        let n : owner j ts ≡ none = ap (λ i. owner i ts) ((eq_iff j []).0 m) ∙ unnamed ts v in
        ground arith
    | inr m ↦ ground arith
  ]
    where
      unnamed : (ts : Tables) → Sound ts → owner [] ts ≡ none
      unnamed ts v = owner-absent [] ts v.named

  others-delete :
      (u keep : Text) (k : K)
      → delete_all_by_user_id_except p u keep k ≡ (
          let r = p.query (with_uuid (p.is_uuid u) (delete_sessions (others u keep))) k in
          (map_error (with_error (bytes "delete sessions except one")) r.0, r.1))
  unfolding delete_all_by_user_id_except ◌==◌
  others-delete u [] k = refl
  others-delete u (c ∷ keep) k = refl

  pub delete_others-IsValid :
      (u keep : Text) (k : K)
      → IsValid p laws k
      → IsValid p laws (delete_all_by_user_id_except p u keep k).1
  delete_others-IsValid u keep k v =
      subst (λ r. Sound (tables r.1)) (sym (others-delete u keep k))
        (deletion-Sound p laws (p.is_uuid u) (others u keep) k v)

  pub delete_others_only :
      (u keep : Text) (k : K) (j w : Text)
      → IsValid p laws k
      → owner_of p laws j (delete_all_by_user_id_except p u keep k).1 ≡ some w
      → owner_of p laws j k ≡ some w
  delete_others_only u keep k j w v e =
      deletion-only p laws (p.is_uuid u) (others u keep) k v j w
        (ap (λ r. owner j (tables r.1)) (sym (others-delete u keep k)) ∙ e)

  -- With a connection that keeps its laws, in tables with one session at most to a hash and to an ID
  -- and none under the empty hash: when DeleteAllByUserIDExcept returns hashes, a hash is among them
  -- exactly when it had a session of the user and is not the one to keep (the empty hash keeps
  -- none), and the sessions of these hashes are gone while every other hash has the owner it had.
  pub delete_others_ok :
      (u keep : Text) (hs : List Text) (k : K) (j : Text)
      → IsValid p laws k
      → (delete_all_by_user_id_except p u keep k).0 ≡ ok hs
      → (listed j hs ≡ is_other u keep j (owner_of p laws j k))
        × (owner_of p laws j (delete_all_by_user_id_except p u keep k).1
            ≡ (if is_other u keep j (owner_of p laws j k) then none else owner_of p laws j k))
  delete_others_ok u keep hs k j v e =
      let same = others-delete u keep k in
      let r =
        map_error-ok (with_error (bytes "delete sessions except one")) _ hs
          (ap (λ w. w.0) (sym same) ∙ e) in
      let (l, o) = deletion-owner p laws (p.is_uuid u) (others u keep) k v hs j r in
      let c = passes-others u keep j (tables k) v in
      (
        l ∙ c,
        ap (λ w. owner j (tables w.1)) same
            ∙ o
            ∙ ap (λ b. if b then none else owner j (tables k)) c,
      )

  list_tables : (u : Text) (k : K) → tables (list_by_user_id p u k).1 ≡ tables k
  unfolding list_by_user_id select_sessions
  list_tables u k =
      query-keeps p laws (λ ts. ts ≡ tables k) (with_uuid (p.is_uuid u) (select_sessions u)) k refl
        (with_uuid-keeps (p.is_uuid u) (select_sessions u) (tables k) (λ ts. ts ≡ tables k) refl
          refl)

  pub list-IsValid :
      (u : Text) (k : K) → IsValid p laws k → IsValid p laws (list_by_user_id p u k).1
  list-IsValid u k v = subst Sound (sym (list_tables u k)) v

  pub owner-list :
      (u : Text) (k : K) (j : Text)
      → IsValid p laws k
      → owner_of p laws j (list_by_user_id p u k).1 ≡ owner_of p laws j k
  owner-list u k j v = ap (owner j) (list_tables u k)
