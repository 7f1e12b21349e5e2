-- ===== src/Redis/Resets/Attempts.antt =====
-- internal/adapters/cache/redis/reset.go: a saved code and the attempts that the script counts on it.
use auth_service.Prelude.{
  ◌<◌, ℕ, suc, ◌+◌, ◌≡◌, inl, inr, refl, sym, ◌∙◌, ap, subst, Text, Option, none, some, leb, true,
  false, Bool-cases, Option-cases, bytes, arith,
}
use auth_service.Strings.Ascii.{IsAscii}
use auth_service.Models.{Stamp}
use auth_service.Ports.{Error, other, Result, ok, err, OtpRecord, ResetTokenRecord}
use auth_service.Redis.{Client}
use auth_service.Redis.Laws.{ScriptLaws, ValueLaws}
use auth_service.Redis.Cache.{Json, done_or}
use auth_service.Redis.Resets.{
  Lua, Reply, raised, missing, count, read_value, counted, store_attempt, incr_otp_script, otp_key,
  save_otp, get_otp, incr_otp_attempts,
}

-- A record that encoding/json and cjson both keep: ASCII texts, and a count of at most fourteen
-- digits, the precision with which cjson writes numbers.
abbrev pub IsPlain : OtpRecord → Type 0
IsPlain o = IsAscii o.user_id × IsAscii o.otp_hash × (o.attempts < 100000000000000)

-- The texts that the program and its script write for a record: json.Marshal's, and what cjson
-- encodes once `attempts` was set in such a text.
pub data Written (lua : Lua) (json : Json OtpRecord) : OtpRecord → Text → Type 0 where
  by_marshal :
      (o : OtpRecord) (text : Text)
      → IsPlain o
      → json.marshal o ≡ some text
      → Written lua json o text
  by_script :
      (o : OtpRecord) (text : Text) (v : lua.Value) (n : ℕ)
      → Written lua json o text
      → lua.decode text ≡ some v
      → n < 100000000000000
      → Written lua json (record o { attempts = n }) (lua.encode (lua.with_attempts n v))

-- Each side reads what was written so: json.Unmarshal the record, and cjson its attempts.
pub record JsonLaws (lua : Lua) (json : Json OtpRecord) : Type 0 where
  pub unmarshalled :
      (o : OtpRecord) (text : Text) → Written lua json o text → json.unmarshal text ≡ some o
  pub decoded :
      (o : OtpRecord) (text : Text) (v : lua.Value)
      → Written lua json o text
      → lua.decode text ≡ some v
      → lua.attempts v ≡ some o.attempts

-- The count of an answer that has one.
abbrev number : Reply → ℕ
number raised = 0
number missing = 0
number (count n) = n

differ : {m : ℕ} → missing ≡ count m → ⊥
differ z = cc

module _ {K : Type 0} (c : Client K) (lua : Lua) (hash : Text → Text) (otp_json : Json OtpRecord)
    (token_json : Json ResetTokenRecord) where
  -- What happens to a code, after so many attempts: reads that find it, and counted attempts.
  pub data Attempted (email : Text) (k₀ : K) : ℕ → K → Type 0 where
    at_first : Attempted email k₀ 0 k₀
    was_read :
        (n : ℕ) (k : K) (t : Stamp) (r : OtpRecord)
        → Attempted email k₀ n k
        → (get_otp c lua hash otp_json token_json t email k).0 ≡ ok r
        → Attempted email k₀ n (get_otp c lua hash otp_json token_json t email k).1
    was_tried :
        (n : ℕ) (k : K) (t : Stamp) (m : ℕ)
        → Attempted email k₀ n k
        → (incr_otp_attempts c lua hash otp_json token_json t email k).0 ≡ ok m
        → Attempted email k₀ (suc n) (incr_otp_attempts c lua hash otp_json token_json t email k).1

  module _ (scripts : ScriptLaws c) (values : ValueLaws c) (laws : JsonLaws lua otp_json) where
    open values use {value}

    -- The value of a key stands for a record.
    abbrev Stored : Text → OtpRecord → K → Type 0
    Stored key o k = (text : Text) × (value key k ≡ some text) × Written lua otp_json o text

    store_attempt-late :
        (key : Text) (v : lua.Value) (k : K)
        → leb (c.pttl key k) 0 ≡ true
        → store_attempt c lua key v k ≡ (missing, k)
    unfolding store_attempt
    store_attempt-late key v k e = rw (store_attempt, e) refl

    store_attempt-counts :
        (key : Text) (v : lua.Value) (k : K) (a : ℕ)
        → lua.attempts v ≡ some a
        → leb (c.pttl key k) 0 ≡ false
        → store_attempt c lua key v k ≡ (
          count (a + 1),
          c.set_px key (lua.encode (lua.with_attempts (a + 1) v)) (c.pttl key k) k,
        )
    unfolding store_attempt
    store_attempt-counts key v k a e b = rw (store_attempt, b, e) refl

    -- What the script leaves of a record, where it answers a count.
    abbrev Counts : Text → OtpRecord → ℕ → K → Type 0
    Counts key o m k =
        (m ≡ o.attempts + 1) × (m < 100000000000000 → Stored key (record o { attempts = m }) k)

    store_attempt-Counts :
        (key text : Text) (o : OtpRecord) (v : lua.Value) (k k' : K) (m : ℕ)
        → Written lua otp_json o text
        → lua.decode text ≡ some v
        → store_attempt c lua key v k ≡ (count m, k')
        → Counts key o m k'
    store_attempt-Counts key text o v k k' m u d e = elim (Bool-cases (leb (c.pttl key k) 0)) [
      | inl late ↦ absurd (differ (ap (λ r. r.0) (sym (store_attempt-late key v k late) ∙ e)))
      | inr b ↦
          let done =
            sym (store_attempt-counts key v k o.attempts (laws.decoded o text v u d) b) ∙ e in
          subst (λ r. Counts key o (number r.0) r.1) done
            (
              refl,
              λ small. (
                lua.encode (lua.with_attempts (o.attempts + 1) v),
                values.set_px_value key _ (c.pttl key k) k,
                by_script o text v (o.attempts + 1) u d small,
              ),
            )
    ]

    incr_otp_script-Counts :
        (key : Text) (o : OtpRecord) (k k' : K) (m : ℕ)
        → Stored key o k
        → incr_otp_script c lua key k ≡ (count m, k')
        → Counts key o m k'
    unfolding incr_otp_script
    incr_otp_script-Counts key o k k' m (text, at, u) e = elim (Option-cases (lua.decode text)) [
      | inl n ↦ absurd (raises (ap (λ r. r.0) (sym (unread n) ∙ e)))
      | inr (v, d) ↦ store_attempt-Counts key text o v k k' m u d (sym (opened v d) ∙ e)
    ]
      where
        opened :
            (v : lua.Value)
            → lua.decode text ≡ some v
            → incr_otp_script c lua key k ≡ store_attempt c lua key v k
        opened v d = rw (incr_otp_script, values.call_get_value key k ∙ at, d) refl

        unread : lua.decode text ≡ none → incr_otp_script c lua key k ≡ (raised, k)
        unread n = rw (incr_otp_script, values.call_get_value key k ∙ at, n) refl

        raises : raised ≡ count m → ⊥
        raises z = cc

    counted-ok : (r : Option Reply) (m : ℕ) → counted r ≡ ok m → r ≡ some (count m)
    counted-ok none m e = absurd (cc)
    counted-ok (some raised) m e = absurd (cc)
    counted-ok (some missing) m e = absurd (cc)
    counted-ok (some (count n)) m e = cc

    incr_otp_attempts-Counts :
        (t : Stamp) (email : Text) (o : OtpRecord) (k : K) (m : ℕ)
        → Stored (otp_key c lua hash otp_json token_json email) o k
        → (incr_otp_attempts c lua hash otp_json token_json t email k).0 ≡ ok m
        → Counts
            (otp_key c lua hash otp_json token_json email)
            o
            m
            (incr_otp_attempts c lua hash otp_json token_json t email k).1
    unfolding incr_otp_attempts
    incr_otp_attempts-Counts t email o k m h e =
        let key = otp_key c lua hash otp_json token_json email in
        let f = incr_otp_script c lua key in
        incr_otp_script-Counts key o k (c.eval f k).1 m h
          (scripts.eval_ok f k (count m) (counted-ok (c.eval f k).0 m e))

    save_otp-Stored :
        (t : Stamp) (user_id email otp_hash : Text) (ttl : ℕ) (k : K)
        → IsPlain (record { user_id = user_id; otp_hash = otp_hash; attempts = 0 })
        → (save_otp c lua hash otp_json token_json t user_id email otp_hash ttl k).0 ≡ ok tt
        → Stored
            (otp_key c lua hash otp_json token_json email)
            (record { user_id = user_id; otp_hash = otp_hash; attempts = 0 })
            (save_otp c lua hash otp_json token_json t user_id email otp_hash ttl k).1
    unfolding save_otp
    save_otp-Stored t u email h ttl k plain e =
        by (otp_json.marshal (record { user_id = u; otp_hash = h; attempts = 0 })) refl e
      where
        key : Text
        key = otp_key c lua hash otp_json token_json email

        saved : Option Text → Result Error (Unit {0}) × K
        saved o = elim o [
          | none ↦ (err (other (bytes "marshal otp")), k)
          | some text ↦ let r = c.set key text ttl k in (done_or (bytes "save otp") r.0, r.1)
        ]

        set_done : (o : Option (Unit {0})) → done_or (bytes "save otp") o ≡ ok tt → o ≡ some tt
        set_done none e = absurd (cc)
        set_done (some tt) e = refl

        by :
            (o : Option Text)
            → otp_json.marshal (record { user_id = u; otp_hash = h; attempts = 0 }) ≡ o
            → (saved o).0 ≡ ok tt
            → Stored key (record { user_id = u; otp_hash = h; attempts = 0 }) (saved o).1
        by none m e = absurd (cc)
        by (some text) m e = (
          text,
          values.set_ok key text ttl k (set_done (c.set key text ttl k).0 e),
          by_marshal _ text plain m,
        )

    read_value-ok :
        (absent : Error) (m : Text) (o : Option (Option Text)) (r : OtpRecord)
        → read_value absent m otp_json.unmarshal o ≡ ok r
        → (text : Text) × (o ≡ some (some text)) × (otp_json.unmarshal text ≡ some r)
    read_value-ok absent m none r e = absurd (cc)
    read_value-ok absent m (some none) r e = absurd (cc)
    read_value-ok absent m (some (some text)) r e = elim (Option-cases (otp_json.unmarshal text)) [
      | inl n ↦ absurd (ground arith)
      | inr (x, n) ↦ (text, refl, ground arith)
    ]

    get_otp-Stored :
        (t : Stamp) (email : Text) (o r : OtpRecord) (k : K)
        → Stored (otp_key c lua hash otp_json token_json email) o k
        → (get_otp c lua hash otp_json token_json t email k).0 ≡ ok r
        → (r ≡ o)
          × Stored
              (otp_key c lua hash otp_json token_json email)
              o
              (get_otp c lua hash otp_json token_json t email k).1
    unfolding get_otp
    get_otp-Stored t email o r k (text, at, u) e =
        let key = otp_key c lua hash otp_json token_json email in
        let (text', found, u') = read_value-ok _ _ (c.get key k).0 r e in
        let (at', same) = values.get_ok key k (some text') found in
        let one : text' ≡ text = cc in
        let read = laws.unmarshalled o text u in (cc, subst (Stored key o) (sym same) (text, at, u))

    -- The record of a code after some attempts on it.
    Attempted-Stored :
        (email : Text) (k₀ k : K) (o : OtpRecord) (n : ℕ)
        → o.attempts ≡ 0
        → n < 100000000000000
        → Stored (otp_key c lua hash otp_json token_json email) o k₀
        → Attempted email k₀ n k
        → Stored (otp_key c lua hash otp_json token_json email) (record o { attempts = n }) k
    Attempted-Stored email k₀ _ o _ z b h at_first =
        subst
          (λ a.
            Stored (otp_key c lua hash otp_json token_json email) (record o { attempts = a }) k₀)
          z h
    Attempted-Stored email k₀ _ o _ z b h (was_read n k t r a e) =
        (get_otp-Stored t email (record o { attempts = n }) r k
          (Attempted-Stored email k₀ k o n z b h a) e).1
    Attempted-Stored email k₀ _ o _ z b h (was_tried n k t m a e) =
        let (same, now) =
          incr_otp_attempts-Counts t email (record o { attempts = n }) k m
            (Attempted-Stored email k₀ k o n z (omega arith) h a) e in
        let next : m ≡ suc n = omega arith in
        subst
          (λ i.
            Stored (otp_key c lua hash otp_json token_json email) (record o { attempts = i })
              (incr_otp_attempts c lua hash otp_json token_json t email k).1)
          next (now (omega arith))

    -- While Redis keeps its laws, no key expires, and encoding/json and cjson read what the two write
    -- for records of ASCII and counts of at most fourteen digits: after SaveOTP succeeded for a user
    -- ID and a hash of ASCII, and then any number of reads that found the code and of counted
    -- attempts, GetOTP returns, where it returns a record, the saved user ID and hash with the number
    -- of attempts, and IncrOTPAttempts returns, where it returns a number, one more.
    pub save_otp_attempts :
        (t : Stamp) (user_id email otp_hash : Text) (ttl n : ℕ) (k₀ k : K) (t' : Stamp)
        → (save_otp c lua hash otp_json token_json t user_id email otp_hash ttl k₀).0 ≡ ok tt
        → Attempted email
            (save_otp c lua hash otp_json token_json t user_id email otp_hash ttl k₀).1
            n
            k
        → IsAscii user_id × IsAscii otp_hash
        → n + 1 < 100000000000000
        → ((r : OtpRecord)
            → (get_otp c lua hash otp_json token_json t' email k).0 ≡ ok r
            → r ≡ record { user_id = user_id; otp_hash = otp_hash; attempts = n })
          × ((m : ℕ)
              → (incr_otp_attempts c lua hash otp_json token_json t' email k).0 ≡ ok m
              → m ≡ n + 1)
    save_otp_attempts t u email h ttl n k₀ k t' e a ascii small =
        let start : OtpRecord = record { user_id = u; otp_hash = h; attempts = 0 } in
        let now =
          Attempted-Stored email _ k start n refl (omega arith)
            (save_otp-Stored t u email h ttl k₀ (ascii.0, ascii.1, omega arith) e) a in
        (
          λ r g. (get_otp-Stored t' email (record start { attempts = n }) r k now g).0,
          λ m g. (incr_otp_attempts-Counts t' email (record start { attempts = n }) k m now g).0,
        )
