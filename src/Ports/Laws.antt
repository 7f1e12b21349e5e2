-- ===== src/Ports/Laws.antt =====
-- What the service relies on of a ports.SessionStore, as laws over an abstract view of its state:
-- the user to whom the session of a token hash belongs.
use auth_service.Prelude.{
  ◌≡◌, ◌≢◌, ◌⊎◌, Text, Option, none, some, List, [], ◌∷◌, Bool, false, ◌==◌, ◌&&◌, ◌||◌, not,
  if◌then◌else◌,
}
use auth_service.Models.{Session, Stamp}
use auth_service.Ports.{ok, SessionStore}

-- Whether a view names this user.
abbrev pub is_user : Text → Option Text → Bool
is_user u none = false
is_user u (some v) = v == u

-- Whether a text is in a list.
abbrev pub listed : Text → List Text → Bool
listed k [] = false
listed k (h ∷ hs) = h == k || listed k hs

-- Of the sessions of a user, whether the one of hash `k` goes while that of `keep` stays.
abbrev pub is_other : Text → Text → Text → Option Text → Bool
is_other u keep k o = is_user u o && not (k == keep)

pub record SessionLaws {S : Type 0} (o : SessionStore S) : Type 1 where
  pub IsValid : S → Type 0
  -- The ID that the store gives out and the token's hash are in no use.
  pub IsFresh : Stamp → Session → S → Type 0
  pub owner : Text → S → Option Text
  pub fresh_hash : (t : Stamp) (x : Session) (s : S) → IsFresh t x s → owner x.token_hash s ≡ none
  pub create_valid :
      (t : Stamp) (x : Session) (s : S) → IsValid s → IsFresh t x s → IsValid (o.create t x s).1
  -- Whatever Create returns, a session that is there now was there, or is the one to create.
  pub create_only :
      (t : Stamp) (x : Session) (s : S) (k u : Text)
      → IsValid s
      → owner k (o.create t x s).1 ≡ some u
      → (owner k s ≡ some u) ⊎ ((x.token_hash ≡ k) × (x.user_id ≡ u))
  pub create_ok :
      (t : Stamp) (x y : Session) (s : S) (k : Text)
      → IsValid s
      → (o.create t x s).0 ≡ ok y
      → owner k (o.create t x s).1 ≡ (if x.token_hash == k then some x.user_id else owner k s)
  pub get_valid : (t : Stamp) (h : Text) (s : S) → IsValid s → IsValid (o.get_by_token_hash t h s).1
  pub get_owner :
      (t : Stamp) (h : Text) (s : S) (k : Text)
      → IsValid s
      → owner k (o.get_by_token_hash t h s).1 ≡ owner k s
  pub get_ok :
      (t : Stamp) (h : Text) (x : Session) (s : S)
      → IsValid s
      → (o.get_by_token_hash t h s).0 ≡ ok x
      → owner h s ≡ some x.user_id
  pub delete_id_valid : (i u : Text) (s : S) → IsValid s → IsValid (o.delete_by_id i u s).1
  pub delete_id_only :
      (i u : Text) (s : S) (k w : Text)
      → IsValid s
      → owner k (o.delete_by_id i u s).1 ≡ some w
      → owner k s ≡ some w
  pub delete_id_ok :
      (i u h : Text) (s : S) (k : Text)
      → IsValid s
      → (o.delete_by_id i u s).0 ≡ ok h
      → (owner h s ≡ some u)
        × (owner k (o.delete_by_id i u s).1 ≡ (if h == k then none else owner k s))
  pub delete_hash_valid : (h : Text) (s : S) → IsValid s → IsValid (o.delete_by_token_hash h s).1
  pub delete_hash_only :
      (h : Text) (s : S) (k w : Text)
      → IsValid s
      → owner k (o.delete_by_token_hash h s).1 ≡ some w
      → owner k s ≡ some w
  pub delete_hash_ok :
      (h : Text) (s : S) (k : Text)
      → IsValid s
      → (o.delete_by_token_hash h s).0 ≡ ok tt
      → owner k (o.delete_by_token_hash h s).1 ≡ (if h == k then none else owner k s)
  pub rotate_valid :
      (t : Stamp) (h : Text) (x : Session) (s : S)
      → IsValid s
      → IsFresh t x s
      → IsValid (o.rotate_token t h x s).1
  pub rotate_only :
      (t : Stamp) (h : Text) (x : Session) (s : S) (k u : Text)
      → IsValid s
      → owner k (o.rotate_token t h x s).1 ≡ some u
      → (owner k s ≡ some u) ⊎ ((owner h s ≢ none) × (x.token_hash ≡ k) × (x.user_id ≡ u))
  pub rotate_ok :
      (t : Stamp) (h : Text) (x y : Session) (s : S) (k : Text)
      → IsValid s
      → (o.rotate_token t h x s).0 ≡ ok y
      → (owner h s ≢ none)
        × (owner k (o.rotate_token t h x s).1
            ≡ (if x.token_hash == k then some x.user_id else if h == k then none else owner k s))
  pub delete_all_valid : (u : Text) (s : S) → IsValid s → IsValid (o.delete_all_by_user_id u s).1
  pub delete_all_only :
      (u : Text) (s : S) (k w : Text)
      → IsValid s
      → owner k (o.delete_all_by_user_id u s).1 ≡ some w
      → owner k s ≡ some w
  pub delete_all_ok :
      (u : Text) (hs : List Text) (s : S) (k : Text)
      → IsValid s
      → (o.delete_all_by_user_id u s).0 ≡ ok hs
      → (listed k hs ≡ is_user u (owner k s))
        × (owner k (o.delete_all_by_user_id u s).1
            ≡ (if is_user u (owner k s) then none else owner k s))
  pub delete_others_valid :
      (u keep : Text) (s : S) → IsValid s → IsValid (o.delete_all_by_user_id_except u keep s).1
  pub delete_others_only :
      (u keep : Text) (s : S) (k w : Text)
      → IsValid s
      → owner k (o.delete_all_by_user_id_except u keep s).1 ≡ some w
      → owner k s ≡ some w
  pub delete_others_ok :
      (u keep : Text) (hs : List Text) (s : S) (k : Text)
      → IsValid s
      → (o.delete_all_by_user_id_except u keep s).0 ≡ ok hs
      → (listed k hs ≡ is_other u keep k (owner k s))
        × (owner k (o.delete_all_by_user_id_except u keep s).1
            ≡ (if is_other u keep k (owner k s) then none else owner k s))
  pub list_valid : (u : Text) (s : S) → IsValid s → IsValid (o.list_by_user_id u s).1
  pub list_owner :
      (u : Text) (s : S) (k : Text) → IsValid s → owner k (o.list_by_user_id u s).1 ≡ owner k s
