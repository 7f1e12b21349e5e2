-- ===== src/Context/Spoofing.antt =====
-- extractIP and extractClientInfo: what a client writes into X-Forwarded-For does not show.
use auth_service.Prelude.Maps.{Map}
use auth_service.Prelude.{
  ◌∙◌, ap, bytes, ℕ, ◌≡◌, refl, inl, inr, Text, none, some, List, [], ◌∷◌, ◌++◌, eqb, arith,
  Bool-cases,
}
use auth_service.Strings.{split, rightmost, trim_space, index_byte}
use auth_service.Strings.Split.{split-alone}
use auth_service.Context.{Context, first, get, forwarded, extract_ip, extract_client_info}

-- Whatever stands before the last separator, the pieces end with the text behind it.
split-ends :
    (sep : ℕ) (before ip : Text)
    → index_byte sep ip ≡ none
    → (p : Text) × ((ps : List Text) × (split sep (before ++ sep ∷ ip) ≡ p ∷ (ps ++ ip ∷ [])))
unfolding split
split-ends sep [] ip e = ([], ([], ground (arith, split-alone sep ip e)))
split-ends sep (c ∷ before) ip e =
    let (p, (ps, r)) = split-ends sep before ip e in
    elim (Bool-cases (eqb c sep)) [
      | inl m ↦ ([], (p ∷ ps, rw (r, m) refl))
      | inr m ↦ (c ∷ p, (ps, rw (r, m) refl))
    ]

rightmost-last :
    (ip : Text) (c : ℕ) (r : Text) (ps : List Text)
    → trim_space ip ≡ c ∷ r
    → rightmost (ps ++ ip ∷ []) ≡ some (c ∷ r)
unfolding rightmost
rightmost-last ip c r [] e = rw (rightmost, e) refl
rightmost-last ip c r (p ∷ ps) e = rw (rightmost, rightmost-last ip c r ps e) refl

pub forwarded-appended :
    (client ip : Text) (c : ℕ) (r : Text)
    → index_byte b',' ip ≡ none
    → trim_space ip ≡ c ∷ r
    → forwarded (some (client ++ b',' ∷ ip)) ≡ some (c ∷ r)
unfolding forwarded
forwarded-appended client ip c r n e =
    let (p, (ps, s)) = split-ends b',' client ip n in
    rw (s, forwarded) (rightmost-last ip c r (p ∷ ps) e)

extract_ip-forwarded :
    (ctx : Context) (md : Map (List Text)) (ip : Text)
    → ctx.metadata ≡ some md
    → forwarded (first (get (bytes "x-forwarded-for") md)) ≡ some ip
    → extract_ip ctx ≡ ip
unfolding extract_ip
extract_ip-forwarded ctx md ip m f = rw (extract_ip, m, f) refl

extract_client_info-forwarded :
    (ctx : Context) (md : Map (List Text)) (ip : Text)
    → ctx.metadata ≡ some md
    → forwarded (first (get (bytes "x-forwarded-for") md)) ≡ some ip
    → (extract_client_info ctx).0 ≡ ip
unfolding extract_client_info
extract_client_info-forwarded ctx md ip m f = rw (extract_client_info, m, f) refl

-- Where a proxy appended an address to X-Forwarded-For behind a comma, an address without commas that
-- is not blank, extractIP and extractClientInfo both take that address with the white space around it
-- cut, whatever the client had put before it, whatever X-Real-IP says and whoever the peer is.
pub extract_ip_appended :
    (ctx : Context) (md : Map (List Text)) (client ip : Text) (c : ℕ) (r : Text)
    → ctx.metadata ≡ some md
    → first (get (bytes "x-forwarded-for") md) ≡ some (client ++ b',' ∷ ip)
    → index_byte b',' ip ≡ none
    → trim_space ip ≡ c ∷ r
    → (extract_ip ctx ≡ c ∷ r) × ((extract_client_info ctx).0 ≡ c ∷ r)
extract_ip_appended ctx md client ip c r m h n e =
    let f = ap forwarded h ∙ forwarded-appended client ip c r n e in
    (extract_ip-forwarded ctx md (c ∷ r) m f, extract_client_info-forwarded ctx md (c ∷ r) m f)
