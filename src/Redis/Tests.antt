-- ===== src/Redis/Tests.antt =====
-- A Redis server in memory that never fails, and a JSON of three parts.
use auth_service.Prelude.{
  arith, ℕ, ◌+◌, ◌≡◌, inr, refl, sym, ◌∙◌, ap, Text, Option, none, some, [], ◌∷◌, bytes,
}
use auth_service.Prelude.Lists.{◌==◌}
use auth_service.Prelude.Maps.{Map, lookup, insert, delete, lookup-insert_self}
use auth_service.Models.{Stamp}
use auth_service.Ports.{ok, OtpRecord, ResetTokenRecord}
use auth_service.Redis.{Client}
use auth_service.Redis.Laws.{ScriptLaws, CountLaws, ValueLaws}
use auth_service.Redis.Cache.{Json}
use auth_service.Redis.Resets.{
  Lua, store_attempt, incr_otp_script, save_otp, get_otp, incr_otp_attempts,
}
use auth_service.Redis.Resets.Attempts.{
  JsonLaws, Written, by_marshal, by_script, at_first, was_tried, save_otp_attempts,
}

pub record Server : Type 0 where
  pub counters : Map ℕ
  pub values : Map Text

abbrev pub or_zero : Option ℕ → ℕ
or_zero none = 0
or_zero (some n) = n

abbrev pub server : Client Server
server = record {
  exists = λ k s. (some 0, s);
  set = λ k v ttl s. (some tt, record s { values = insert k v s.values });
  del = λ ks s. (some tt, s);
  get_int = λ k s. (some none, s);
  get = λ k s. (some (lookup k s.values), s);
  eval = λ {A} f s. (some (f s).0, (f s).1);
  incr = λ k s. (
    or_zero (lookup k s.counters) + 1,
    record s { counters = insert k (or_zero (lookup k s.counters) + 1) s.counters },
  );
  expire = λ k n s. s;
  call_get = λ k s. lookup k s.values;
  pttl = λ k s. 1000;
  set_px = λ k v ttl s. record s { values = insert k v s.values };
}

pub some_inj : {A : Type 0} {x y : A} → some x ≡ some y → x ≡ y
some_inj e = cc

abbrev pub scripts : ScriptLaws server
scripts = record {
  eval_ok = λ {A} f k a e. λ i. (some_inj e i, (f k).1);
  eval_only = λ {A} f k. inr refl;
}

abbrev pub counts : CountLaws server
counts = record {
  counts = λ key k. or_zero (lookup key k.counters);
  incr_value = λ key k. refl;
  incr_counts =
      λ key k. ap or_zero (lookup-insert_self key (or_zero (lookup key k.counters) + 1) k.counters);
  expire_counts = λ key n k. refl;
}

abbrev values : ValueLaws server
values = record {
  value = λ key k. lookup key k.values;
  get_ok = λ key k o e. (some_inj e, refl);
  set_ok = λ key v ttl k e. lookup-insert_self key v k.values;
  call_get_value = λ key k. refl;
  set_px_value = λ key v ttl k. lookup-insert_self key v k.values;
}

-- A record is its attempts, its user of one byte, and its hash.
abbrev written : ℕ → Text → Text → Option Text
written n (x ∷ []) h = some (n ∷ x ∷ h)
written n _ h = none

abbrev parsed : Text → Option OtpRecord
parsed (n ∷ x ∷ h) = some (record { user_id = x ∷ []; otp_hash = h; attempts = n })
parsed _ = none

abbrev json : Json OtpRecord
json = record { marshal = λ o. written o.attempts o.user_id o.otp_hash; unmarshal = parsed }

abbrev token_json : Json ResetTokenRecord
token_json = record { marshal = λ o. none; unmarshal = λ s. none }

abbrev first : Text → Option ℕ
first [] = none
first (n ∷ s) = some n

abbrev with_first : ℕ → Text → Text
with_first n [] = []
with_first n (m ∷ s) = n ∷ s

abbrev lua : Lua
lua = record {
  Value = Text;
  decode = λ s. some s;
  encode = λ s. s;
  attempts = first;
  with_attempts = with_first;
}

parsed-written :
    (n : ℕ) (u h text : Text)
    → written n u h ≡ some text
    → parsed text ≡ some (record { user_id = u; otp_hash = h; attempts = n })
parsed-written n [] h text e = absurd (cc)
parsed-written n (x ∷ []) h text e = ap parsed (sym (some_inj e))
parsed-written n (x ∷ y ∷ u) h text e = absurd (cc)

first-parsed : (o : OtpRecord) (text : Text) → parsed text ≡ some o → first text ≡ some o.attempts
first-parsed o [] e = absurd (cc)
first-parsed o (n ∷ []) e = absurd (cc)
first-parsed o (n ∷ x ∷ h) e = ap (λ r. some r.attempts) (some_inj e)

abbrev with_attempts : ℕ → OtpRecord → OtpRecord
with_attempts n r = record r { attempts = n }

parsed-with_first :
    (o : OtpRecord) (text : Text) (n : ℕ)
    → parsed text ≡ some o
    → parsed (with_first n text) ≡ some (record o { attempts = n })
parsed-with_first o [] n e = absurd (cc)
parsed-with_first o (m ∷ []) n e = absurd (cc)
parsed-with_first o (m ∷ x ∷ h) n e = ap (λ (r : OtpRecord). some (with_attempts n r)) (some_inj e)

parsed-Written : (o : OtpRecord) (text : Text) → Written lua json o text → parsed text ≡ some o
parsed-Written _ _ (by_marshal o text plain e) =
    parsed-written o.attempts o.user_id o.otp_hash text e
parsed-Written _ _ (by_script o text v n w d b) =
    parsed-with_first o v n (ap parsed (sym (some_inj d)) ∙ parsed-Written o text w)

laws : JsonLaws lua json
laws = record {
  unmarshalled = parsed-Written;
  decoded =
      λ o text v w d. first-parsed o v (ap parsed (sym (some_inj d)) ∙ parsed-Written o text w);
}

abbrev stamp : Stamp
stamp = record { now = 5; later = 6; uuid = []; entropy = λ k. none }

abbrev empty : Server
empty = record { counters = []; values = [] }

abbrev hash : Text → Text
hash s = s

abbrev saved : Server
saved = record { counters = []; values = (bytes "pwreset:a", 0 ∷ bytes "u7") ∷ [] }

abbrev tried : Server
tried = record { counters = []; values = (bytes "pwreset:a", 1 ∷ bytes "u7") ∷ [] }

code_saved :
    save_otp server lua hash json token_json stamp (bytes "u") (bytes "a") (bytes "7") 900 empty
    ≡ (ok tt, saved)
unfolding save_otp insert delete
code_saved = refl

-- The attempt after the code was saved.
abbrev after_save : Server
after_save =
    (save_otp server lua hash json token_json stamp (bytes "u") (bytes "a") (bytes "7") 900 empty).1

code_tried :
    incr_otp_attempts server lua hash json token_json stamp (bytes "a") after_save ≡ (ok 1, tried)
unfolding save_otp incr_otp_attempts incr_otp_script store_attempt insert delete lookup ◌==◌
code_tried = refl

save_otp_attempts_example :
    ((r : OtpRecord)
      → (get_otp server lua hash json token_json stamp
          (bytes "a")
          (incr_otp_attempts server lua hash json token_json stamp (bytes "a") after_save).1).0
        ≡ ok r
      → r ≡ record { user_id = bytes "u"; otp_hash = bytes "7"; attempts = 1 })
    × ((m : ℕ)
        → (incr_otp_attempts server lua hash json token_json stamp
            (bytes "a")
            (incr_otp_attempts server lua hash json token_json stamp (bytes "a") after_save).1).0
          ≡ ok m
        → m ≡ 1 + 1)
save_otp_attempts_example =
    save_otp_attempts server lua hash json token_json scripts values laws stamp (bytes "u")
      (bytes "a") (bytes "7") 900 1 empty
      (incr_otp_attempts server lua hash json token_json stamp (bytes "a") after_save).1 stamp
      (ap (λ r. r.0) code_saved)
      (was_tried 0 after_save stamp 1 at_first (ap (λ r. r.0) code_tried))
      ((omega arith, tt), (omega arith, tt)) (omega arith)
