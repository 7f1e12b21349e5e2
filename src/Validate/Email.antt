-- ===== src/Validate/Email.antt =====
-- internal/lib/validate/validate.go: the addresses that Email accepts.
use auth_service.Prelude.{
  ℕ, ◌≤◌, ◌≡◌, ◌≢◌, ◌↔◌, refl, sym, ◌∙◌, ap, subst, Text, [], ◌∷◌, ◌++◌, length, Bool, true, false,
  arith,
}
use auth_service.Ports.{ok}
use auth_service.Validate.{
  Regex, class, seq, star, plus, matches, is_ascii_letter, local_char, domain_char, email_re,
  check_email,
}
use auth_service.Validate.Matching.{Matches, one_char, in_turn, no_more, one_more, matches-Matches}

-- Every character passes a test.
abbrev pub AllOf : (ℕ → Bool) → Text → Type 0
AllOf p [] = Unit {0}
AllOf p (c ∷ s) = (p c ≡ true) × AllOf p s

-- A local part, the sign, a domain, a dot and a last part of two letters or more.
pub data IsAddress : Text → Type 0 where
  address :
      (s local domain last : Text)
      → s ≡ local ++ (b'@' ∷ (domain ++ (b'.' ∷ last)))
      → local ≢ []
      → AllOf local_char local
      → domain ≢ []
      → AllOf domain_char domain
      → 2 ≤ length last
      → AllOf is_ascii_letter last
      → IsAddress s

star-AllOf : (p : ℕ → Bool) (s : Text) → Matches (star (class p)) s → AllOf p s
star-AllOf p s (no_more _ _ e) = subst (AllOf p) (sym e) tt
star-AllOf p s (one_more _ _ a b e (one_char _ _ c f h) n) =
    subst (AllOf p) (sym (e ∙ ap (λ w. w ++ b) f)) (h, star-AllOf p b n)

AllOf-star : (p : ℕ → Bool) (s : Text) → AllOf p s → Matches (star (class p)) s
AllOf-star p [] h = no_more _ [] refl
AllOf-star p (c ∷ s) (h, hs) =
    one_more _ (c ∷ s) (c ∷ []) s refl (one_char p (c ∷ []) c refl h) (AllOf-star p s hs)

plus-AllOf : (p : ℕ → Bool) (s : Text) → Matches (plus (class p)) s → (s ≢ []) × AllOf p s
plus-AllOf p s (in_turn _ _ _ a b e (one_char _ _ c f h) n) =
    let same : s ≡ c ∷ b = e ∙ ap (λ w. w ++ b) f in
    (λ z. cc, subst (AllOf p) (sym same) (h, star-AllOf p b n))

AllOf-plus : (p : ℕ → Bool) (s : Text) → s ≢ [] → AllOf p s → Matches (plus (class p)) s
AllOf-plus p [] n h = absurd (n refl)
AllOf-plus p (c ∷ s) n (h, hs) =
    in_turn _ _ (c ∷ s) (c ∷ []) s refl (one_char p (c ∷ []) c refl h) (AllOf-star p s hs)

-- One character of a class and what follows it.
after_char :
    (p : ℕ → Bool) (r : Regex) (s : Text)
    → Matches (seq (class p) r) s
    → (c : ℕ) × (b : Text) × ((s ≡ c ∷ b) × (p c ≡ true) × Matches r b)
after_char p r s (in_turn _ _ _ a b e (one_char _ _ c f h) n) =
    (c, b, (e ∙ ap (λ w. w ++ b) f, h, n))

char_then :
    (p : ℕ → Bool) (r : Regex) (c : ℕ) (s : Text)
    → p c ≡ true
    → Matches r s
    → Matches (seq (class p) r) (c ∷ s)
char_then p r c s h m = in_turn _ _ (c ∷ s) (c ∷ []) s refl (one_char p (c ∷ []) c refl h) m

parts :
    (r r' : Regex) (s : Text)
    → Matches (seq r r') s
    → (a : Text) × (b : Text) × ((s ≡ a ++ b) × Matches r a × Matches r' b)
parts r r' s (in_turn _ _ _ a b e m n) = (a, b, (e, m, n))

longer : (x : ℕ) (u : Text) → u ≢ [] → 2 ≤ length (x ∷ u)
longer x [] n = absurd (n refl)
longer x (y ∷ u) n = omega arith

IsAddress-Matches : (s : Text) → IsAddress s → Matches email_re s
IsAddress-Matches s (address _ l d [] e nl hl nd hd b ht) = absurd (omega arith)
IsAddress-Matches s (address _ l d (x ∷ []) e nl hl nd hd b ht) = absurd (omega arith)
IsAddress-Matches s (address _ l d (x ∷ y ∷ t) e nl hl nd hd b (hx, ht)) =
    in_turn _ _ s l _ e (AllOf-plus local_char l nl hl) (
      char_then _ _ b'@' _ refl (
        in_turn _ _ _ d _ refl (AllOf-plus domain_char d nd hd) (
          char_then _ _ b'.' _ refl
            (char_then _ _ x (y ∷ t) hx (AllOf-plus is_ascii_letter (y ∷ t) (λ z. cc) ht)))))

Matches-IsAddress : (s : Text) → Matches email_re s → IsAddress s
Matches-IsAddress s (in_turn _ _ _ l a e ml ma) =
    let (nl, hl) = plus-AllOf local_char l ml in
    let (c, b, (f, hc, mb)) = after_char _ _ a ma in
    let (d, b', (g, md, mb')) = parts _ _ b mb in
    let (nd, hd) = plus-AllOf domain_char d md in
    let (c', t, (f', hc', mt)) = after_char _ _ b' mb' in
    let (x, u, (k, hx, mu)) = after_char _ _ t mt in
    let (nu, hu) = plus-AllOf is_ascii_letter u mu in
    let at : c ≡ b'@' = ground arith in
    let dot : c' ≡ b'.' = ground arith in
    address s l d (x ∷ u) (cc) nl hl nd hd (longer x u nu) (hx, hu)

-- Email returns no error exactly for a text of the form local@domain.last: the local part of one or
-- more letters, digits and characters of ._%+-, the domain of one or more letters, digits, dots and
-- dashes, and the last part of two or more letters, all of ASCII.
pub check_email-IsAddress : (s : Text) → (check_email s ≡ ok tt) ↔ IsAddress s
unfolding check_email
check_email-IsAddress [] =
    (λ e. absurd (cc), λ a. absurd (let e : false ≡ true = no_address a in cc))
  where
    no_address : IsAddress [] → false ≡ true
    no_address a = (matches-Matches email_re []).1 (IsAddress-Matches [] a)
check_email-IsAddress (c ∷ s) = (
  λ e. Matches-IsAddress (c ∷ s) ((matches-Matches email_re (c ∷ s)).0 (accepted e)),
  λ a. rw (check_email, (matches-Matches email_re (c ∷ s)).1 (IsAddress-Matches (c ∷ s) a)) refl,
)
  where
    accepted : check_email (c ∷ s) ≡ ok tt → matches email_re (c ∷ s) ≡ true
    accepted e = ground arith
