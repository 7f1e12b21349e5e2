-- ===== src/Redis/Resets.antt =====
-- internal/adapters/cache/redis/reset.go. The JSON of encoding/json, and cjson of the server's Lua,
-- are parameters; `hash` is token.Hash.
pub mod Attempts
use auth_service.Prelude.{
  ℕ, ◌+◌, Text, Option, none, some, [], ◌∷◌, ◌++◌, bytes, leb, if◌then◌else◌,
}
use auth_service.Models.{Stamp}
use auth_service.Ports.{
  Error, other, reset_code_not_found, reset_token_not_found, Result, ok, err, OtpRecord,
  ResetTokenRecord, PasswordResetStore,
}
use auth_service.Redis.{Client}
use auth_service.Redis.Cache.{Json, done_or, parsed_or}

abbrev pub otp_prefix : Text
otp_prefix = bytes "pwreset:"

abbrev pub reset_token_prefix : Text
reset_token_prefix = bytes "pwreset_token:"

-- cjson, and the field `attempts` of a table.
pub record Lua : Type 1 where
  pub Value : Type 0
  pub decode : Text → Option Value
  pub encode : Value → Text
  pub attempts : Value → Option ℕ
  pub with_attempts : ℕ → Value → Value

-- What the script comes to: an error that cjson raises, -1, or a count.
pub data Reply : Type 0 where
  raised missing : Reply
  count : ℕ → Reply

abbrev or_zero : Option ℕ → ℕ
or_zero none = 0
or_zero (some n) = n

-- An answer to GET, under the error of a key that is not there.
abbrev pub read_value :
    {A : Type 0} → Error → Text → (Text → Option A) → Option (Option Text) → Result Error A
read_value absent m parse none = err (other m)
read_value absent m parse (some none) = err absent
read_value absent m parse (some (some text)) = parsed_or m (parse text)

module _ {K : Type 0} (c : Client K) (lua : Lua) where
  -- The script's rest, on the decoded value.
  unfoldable pub store_attempt : Text → lua.Value → K → Reply × K
  store_attempt key d k =
      let n = or_zero (lua.attempts d) + 1 in
      let ttl = c.pttl key k in
      if leb ttl 0
      then (missing, k)
      else (count n, c.set_px key (lua.encode (lua.with_attempts n d)) ttl k)

  -- incrOTPScript
  unfoldable pub incr_otp_script : Text → K → Reply × K
  unfolding store_attempt
  incr_otp_script key k = elim (c.call_get key k) [
    | none ↦ (missing, k)
    | some raw ↦ elim (lua.decode raw) [ none ↦ (raised, k) | some d ↦ store_attempt key d k ]
  ]

abbrev pub counted : Option Reply → Result Error ℕ
counted none = err (other (bytes "incr otp attempts"))
counted (some raised) = err (other (bytes "incr otp attempts"))
counted (some missing) = err reset_code_not_found
counted (some (count n)) = ok n

module _ {K : Type 0} (c : Client K) (lua : Lua) (hash : Text → Text) (otp_json : Json OtpRecord)
    (token_json : Json ResetTokenRecord) where
  abbrev pub otp_key : Text → Text
  otp_key email = otp_prefix ++ hash email

  -- (*ResetCache).SaveOTP
  unfoldable pub save_otp : Stamp → Text → Text → Text → ℕ → K → Result Error (Unit {0}) × K
  save_otp t user_id email otp_hash ttl k =
      elim (otp_json.marshal (record { user_id = user_id; otp_hash = otp_hash; attempts = 0 })) [
        | none ↦ (err (other (bytes "marshal otp")), k)
        | some text ↦
            let r = c.set (otp_key email) text ttl k in (done_or (bytes "save otp") r.0, r.1)
      ]

  -- (*ResetCache).GetOTP
  unfoldable pub get_otp : Stamp → Text → K → Result Error OtpRecord × K
  get_otp t email k =
      let r = c.get (otp_key email) k in
      (read_value reset_code_not_found (bytes "get otp") otp_json.unmarshal r.0, r.1)

  -- (*ResetCache).IncrOTPAttempts
  unfoldable pub incr_otp_attempts : Stamp → Text → K → Result Error ℕ × K
  unfolding incr_otp_script
  incr_otp_attempts t email k =
      let r = c.eval (incr_otp_script c lua (otp_key email)) k in (counted r.0, r.1)

  -- (*ResetCache).DeleteOTP
  unfoldable pub delete_otp : Text → K → Result Error (Unit {0}) × K
  delete_otp email k = let r = c.del (otp_key email ∷ []) k in (done_or (bytes "del") r.0, r.1)

  -- (*ResetCache).SaveResetToken
  unfoldable pub save_reset_token : Stamp → Text → Text → Text → ℕ → K → Result Error (Unit {0}) × K
  save_reset_token t token_hash user_id email ttl k =
      elim (token_json.marshal (record { user_id = user_id; email = email })) [
        | none ↦ (err (other (bytes "marshal reset token")), k)
        | some text ↦
            let r = c.set (reset_token_prefix ++ token_hash) text ttl k in
            (done_or (bytes "save reset token") r.0, r.1)
      ]

  -- (*ResetCache).GetResetToken
  unfoldable pub get_reset_token : Stamp → Text → K → Result Error ResetTokenRecord × K
  get_reset_token t token_hash k =
      let r = c.get (reset_token_prefix ++ token_hash) k in
      (read_value reset_token_not_found (bytes "get reset token") token_json.unmarshal r.0, r.1)

  -- (*ResetCache).DeleteResetToken
  unfoldable pub delete_reset_token : Text → K → Result Error (Unit {0}) × K
  delete_reset_token token_hash k =
      let r = c.del ((reset_token_prefix ++ token_hash) ∷ []) k in (done_or (bytes "del") r.0, r.1)

  -- NewResetCache
  abbrev pub reset_store : PasswordResetStore K
  reset_store = record {
    save_otp = save_otp;
    get_otp = get_otp;
    incr_otp_attempts = incr_otp_attempts;
    delete_otp = delete_otp;
    save_reset_token = save_reset_token;
    get_reset_token = get_reset_token;
    delete_reset_token = delete_reset_token;
  }
