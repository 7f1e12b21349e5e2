-- ===== src/Password/RoundTrip.antt =====
-- internal/lib/password/password.go: Verify reads what Hash writes.
use auth_service.Prelude.{
  ℕ, ◌≡◌, refl, sym, ap, ◌∙◌, Text, some, List, [], ◌∷◌, ◌++◌, bytes, length, ◌==◌, true, eq_refl,
}
use auth_service.Models.{Stamp}
use auth_service.Ports.{Error, Result, ok}
use auth_service.Strings.{split, cut_prefix, cut_any, cut_all}
use auth_service.Strings.Split.{split-alone, split-piece}
use auth_service.Encoding.{raw_encode, raw_decode, decimal}
use auth_service.Encoding.Base64.{AllBytes, raw_decode-encode, index-encode}
use auth_service.Password.{
  hash, verify, verify_fields, scan_params, scan_field, scan_digits, skip_spaces, memory, salt_len,
  iterations, parallelism, key_len,
}

module _ (id_key : Text → List ℕ → ℕ → ℕ → ℕ → ℕ → List ℕ) where
  -- argon2.IDKey gives as many bytes as it is asked for.
  abbrev pub GivesBytes : Type 0
  GivesBytes =
      (p : Text) (salt : List ℕ) (i m t n : ℕ)
      → AllBytes (id_key p salt i m t n) × (length (id_key p salt i m t n) ≡ n)

  -- The key that Hash stores for a password and a salt.
  abbrev pub key_of : Text → List ℕ → List ℕ
  key_of p salt = id_key p salt iterations memory parallelism key_len

  -- An encoded hash is its four fields and the salt and the key in base64.
  split-hash :
      (salt key : List ℕ)
      → AllBytes salt
      → AllBytes key
      → split b'$' (
          bytes "$argon2id$v=19$m=65536,t=3,p=4$"
          ++ (raw_encode salt ++ (bytes "$" ++ raw_encode key)))
        ≡ []
          ∷ bytes "argon2id"
          ∷ bytes "v=19"
          ∷ bytes "m=65536,t=3,p=4"
          ∷ raw_encode salt
          ∷ raw_encode key
          ∷ []
  unfolding split
  split-hash salt key hs hk =
      ap (λ ps. [] ∷ bytes "argon2id" ∷ bytes "v=19" ∷ bytes "m=65536,t=3,p=4" ∷ ps)
        (split-piece b'$' (raw_encode salt) (raw_encode key) (index-encode salt hs)
          ∙ ap (λ ps. raw_encode salt ∷ ps)
              (split-alone b'$' (raw_encode key) (index-encode key hk)))

  params : scan_params (bytes "m=65536,t=3,p=4") ≡ some (65536, 3, 4)
  unfolding scan_params scan_field scan_digits skip_spaces cut_prefix cut_any cut_all
  params = refl

  verify_fields-parsed :
      (q params s₁ s₂ : Text) (m i n : ℕ) (salt key : List ℕ)
      → scan_params params ≡ some (m, i, n)
      → raw_decode s₁ ≡ some salt
      → raw_decode s₂ ≡ some key
      → verify_fields id_key q params s₁ s₂ ≡ ok (id_key q salt i m n (length key) == key)
  unfolding verify_fields
  verify_fields-parsed q params s₁ s₂ m i n salt key e₁ e₂ e₃ = rw (verify_fields, e₁, e₂, e₃) refl

  verify_fields-key :
      (q : Text) (salt key : List ℕ)
      → AllBytes salt
      → AllBytes key
      → length key ≡ key_len
      → verify_fields id_key q (bytes "m=65536,t=3,p=4") (raw_encode salt) (raw_encode key)
        ≡ ok (key_of q salt == key)
  verify_fields-key q salt key hs hk l =
      verify_fields-parsed q _ _ _ 65536 3 4 salt key params (raw_decode-encode salt hs)
        (raw_decode-encode key hk)
      ∙ ap (λ n. ok (id_key q salt 3 65536 4 n == key)) l

  verify-split :
      (q s a b c params salt stored : Text)
      → split b'$' s ≡ a ∷ b ∷ c ∷ params ∷ salt ∷ stored ∷ []
      → verify id_key q s ≡ verify_fields id_key q params salt stored
  unfolding verify
  verify-split q s a b c params salt stored e = rw (verify, e) refl

  -- The stored form of a key.
  abbrev stored : List ℕ → List ℕ → Text
  stored salt key =
      bytes "$argon2id$v=19$m=65536,t=3,p=4$" ++ (raw_encode salt ++ (bytes "$" ++ raw_encode key))

  ok_inj : {x y : Text} → ◌≡◌ {A = Result Error Text} (ok x) (ok y) → x ≡ y
  ok_inj e = cc

  hash-stored :
      (t : Stamp) (p : Text) (salt : List ℕ) (e : Text)
      → t.entropy salt_len ≡ some salt
      → hash id_key t p ≡ ok e
      → e ≡ stored salt (key_of p salt)
  unfolding hash decimal
  hash-stored t p salt e h r = ok_inj (sym r ∙ rw (hash, h) refl)

  -- A hash that Hash made from a random salt is accepted for a password exactly when that password
  -- has the key that was stored; the password itself is always accepted. Argon2 is assumed to give
  -- as many bytes as it is asked for.
  pub verify-hash :
      (t : Stamp) (p : Text) (salt : List ℕ) (e : Text)
      → GivesBytes
      → AllBytes salt
      → t.entropy salt_len ≡ some salt
      → hash id_key t p ≡ ok e
      → ((q : Text) → verify id_key q e ≡ ok (key_of q salt == key_of p salt))
        × (verify id_key p e ≡ ok true)
  verify-hash t p salt e g hs h r =
      let (hk, l) = g p salt iterations memory parallelism key_len in
      let any = λ (q : Text).
        ap (verify id_key q) (hash-stored t p salt e h r)
        ∙ verify-split q _ _ _ _ _ _ _ (split-hash salt (key_of p salt) hs hk)
        ∙ verify_fields-key q salt (key_of p salt) hs hk l in
      (any, any p ∙ ap ok (eq_refl (key_of p salt)))
