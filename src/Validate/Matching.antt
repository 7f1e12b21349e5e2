-- ===== src/Validate/Matching.antt =====
-- What a regular expression stands for, and that `matches` decides it.
use auth_service.Prelude.{
  ℕ, ◌≡◌, ◌↔◌, refl, sym, ◌∙◌, ap, subst, inl, inr, Text, [], ◌∷◌, ◌++◌, Bool, true, false,
  Bool-cases, if◌then◌else◌, arith,
}
use auth_service.Validate.{
  Regex, nothing, empty, class, seq, alt, star, nullable, derivative, matches,
}

-- The texts of a regular expression.
pub data Matches : Regex → Text → Type 0 where
  empty_text : (s : Text) → s ≡ [] → Matches empty s
  one_char : (p : ℕ → Bool) (s : Text) (c : ℕ) → s ≡ c ∷ [] → p c ≡ true → Matches (class p) s
  in_turn :
      (r r' : Regex) (s a b : Text) → s ≡ a ++ b → Matches r a → Matches r' b → Matches (seq r r') s
  on_left : (r r' : Regex) (s : Text) → Matches r s → Matches (alt r r') s
  on_right : (r r' : Regex) (s : Text) → Matches r' s → Matches (alt r r') s
  no_more : (r : Regex) (s : Text) → s ≡ [] → Matches (star r) s
  one_more :
      (r : Regex) (s a b : Text)
      → s ≡ a ++ b
      → Matches r a
      → Matches (star r) b
      → Matches (star r) s

nullable-Matches : (r : Regex) → nullable r ≡ true → Matches r []
unfolding nullable
nullable-Matches nothing h = absurd (cc)
nullable-Matches empty h = empty_text [] refl
nullable-Matches (class p) h = absurd (cc)
nullable-Matches (seq r r') h =
    in_turn r r' [] [] [] refl (nullable-Matches r (ground arith))
      (nullable-Matches r' (ground arith))
nullable-Matches (alt r r') h = elim (Bool-cases (nullable r)) [
  | inl e ↦ on_left r r' [] (nullable-Matches r e)
  | inr e ↦ on_right r r' [] (nullable-Matches r' (ground arith))
]
nullable-Matches (star r) h = no_more r [] refl

nothing_lem : {A : Type 0} {s : Text} → Matches nothing s → A
nothing_lem m = elim m [ ]

empty_lem : {s : Text} → Matches empty s → s ≡ []
empty_lem (empty_text _ e) = e

-- What the derivative of a sequence matches, from what the derivatives of its parts do.
module _ (r r' d d' : Regex) (c : ℕ) where
  from_first :
      (s : Text)
      → ((a : Text) → Matches d a → Matches r (c ∷ a))
      → Matches (seq d r') s
      → Matches (seq r r') (c ∷ s)
  from_first s ih (in_turn _ _ _ a b e m n) =
      in_turn r r' (c ∷ s) (c ∷ a) b (ap (λ w. c ∷ w) e) (ih a m) n

  from_either :
      (s : Text)
      → nullable r ≡ true
      → ((a : Text) → Matches d a → Matches r (c ∷ a))
      → ((b : Text) → Matches d' b → Matches r' (c ∷ b))
      → Matches (alt (seq d r') d') s
      → Matches (seq r r') (c ∷ s)
  from_either s k ih ih' (on_left _ _ _ m) = from_first s ih m
  from_either s k ih ih' (on_right _ _ _ m) =
      in_turn r r' (c ∷ s) [] (c ∷ s) refl (nullable-Matches r k) (ih' s m)

  to_first :
      (b : Bool) (s : Text)
      → Matches (seq d r') s
      → Matches (if b then alt (seq d r') d' else seq d r') s
  to_first true s m = on_left _ _ s m
  to_first false s m = m

  to_second :
      (b : Bool) (s : Text)
      → b ≡ true
      → Matches d' s
      → Matches (if b then alt (seq d r') d' else seq d r') s
  to_second true s e m = on_right _ _ s m
  to_second false s e m = absurd (cc)

Matches-nullable : (r : Regex) (s : Text) → s ≡ [] → Matches r s → nullable r ≡ true
unfolding nullable
Matches-nullable nothing s e m = nothing_lem m
Matches-nullable empty s e (empty_text _ _) = refl
Matches-nullable (class p) s e (one_char _ _ c f h) = absurd (cc)
Matches-nullable (seq r r') s e (in_turn _ _ _ [] b f m n) =
    ground (arith, Matches-nullable r [] refl m, Matches-nullable r' b (sym f ∙ e) n)
Matches-nullable (seq r r') s e (in_turn _ _ _ (c ∷ a) b f m n) = absurd (cc)
Matches-nullable (alt r r') s e (on_left _ _ _ m) = ground (arith, Matches-nullable r s e m)
Matches-nullable (alt r r') s e (on_right _ _ _ m) = ground (arith, Matches-nullable r' s e m)
Matches-nullable (star r) s e m = refl

derivative-Matches : (r : Regex) (c : ℕ) (s : Text) → Matches (derivative c r) s → Matches r (c ∷ s)
unfolding derivative
derivative-Matches nothing c s m = nothing_lem m
derivative-Matches empty c s m = nothing_lem m
derivative-Matches (class p) c s m = elim (Bool-cases (p c)) [
  | inl e ↦
      one_char p (c ∷ s) c
        (ap (λ w. c ∷ w) (empty_lem (subst (λ b. Matches (if b then empty else nothing) s) e m))) e
  | inr e ↦ nothing_lem (subst (λ b. Matches (if b then empty else nothing) s) e m)
]
derivative-Matches (seq r r') c s m = elim (Bool-cases (nullable r)) [
  | inl e ↦
      from_either r r' (derivative c r) (derivative c r') c s e (λ a. derivative-Matches r c a)
        (λ b. derivative-Matches r' c b)
        (subst
          (λ b.
            Matches
              (if b
                then alt (seq (derivative c r) r') (derivative c r')
                else seq (derivative c r) r')
              s)
          e m)
  | inr e ↦
      from_first r r' (derivative c r) (derivative c r') c s (λ a. derivative-Matches r c a)
        (subst
          (λ b.
            Matches
              (if b
                then alt (seq (derivative c r) r') (derivative c r')
                else seq (derivative c r) r')
              s)
          e m)
]
derivative-Matches (alt r r') c s (on_left _ _ _ m) =
    on_left r r' (c ∷ s) (derivative-Matches r c s m)
derivative-Matches (alt r r') c s (on_right _ _ _ m) =
    on_right r r' (c ∷ s) (derivative-Matches r' c s m)
derivative-Matches (star r) c s (in_turn _ _ _ a b e m n) =
    one_more r (c ∷ s) (c ∷ a) b (ap (λ w. c ∷ w) e) (derivative-Matches r c a m) n

Matches-derivative :
    (r : Regex) (c : ℕ) (s t : Text) → t ≡ c ∷ s → Matches r t → Matches (derivative c r) s
unfolding derivative
Matches-derivative nothing c s t e m = nothing_lem m
Matches-derivative empty c s t e (empty_text _ f) = absurd (cc)
Matches-derivative (class p) c s t e (one_char _ _ d f h) =
    let same : d ≡ c = cc in
    subst (λ b. Matches (if b then empty else nothing) s) (sym (ap p (sym same) ∙ h))
      (empty_text s (cc))
Matches-derivative (seq r r') c s t e (in_turn _ _ _ [] b f m n) =
    to_second r r' (derivative c r) (derivative c r') c (nullable r) s
      (Matches-nullable r [] refl m) (Matches-derivative r' c s b (sym f ∙ e) n)
Matches-derivative (seq r r') c s t e (in_turn _ _ _ (d ∷ a) b f m n) =
    to_first r r' (derivative c r) (derivative c r') c (nullable r) s
      (in_turn (derivative c r) r' s a b (cc) (Matches-derivative r c a (d ∷ a) (cc) m) n)
Matches-derivative (alt r r') c s t e (on_left _ _ _ m) =
    on_left _ _ s (Matches-derivative r c s t e m)
Matches-derivative (alt r r') c s t e (on_right _ _ _ m) =
    on_right _ _ s (Matches-derivative r' c s t e m)
Matches-derivative (star r) c s t e (no_more _ _ f) = absurd (cc)
Matches-derivative (star r) c s t e (one_more _ _ [] b f m n) =
    Matches-derivative (star r) c s b (sym f ∙ e) n
Matches-derivative (star r) c s t e (one_more _ _ (d ∷ a) b f m n) =
    in_turn (derivative c r) (star r) s a b (cc) (Matches-derivative r c a (d ∷ a) (cc) m) n

-- `matches` answers true exactly for the texts of the expression.
pub matches-Matches : (r : Regex) (s : Text) → (matches r s ≡ true) ↔ Matches r s
unfolding matches
matches-Matches r s = (sound r s, complete r s)
  where
    sound : (r : Regex) (s : Text) → matches r s ≡ true → Matches r s
    sound r [] h = nullable-Matches r h
    sound r (c ∷ s) h = derivative-Matches r c s (sound (derivative c r) s h)

    complete : (r : Regex) (s : Text) → Matches r s → matches r s ≡ true
    complete r [] m = Matches-nullable r [] refl m
    complete r (c ∷ s) m = complete (derivative c r) s (Matches-derivative r c s (c ∷ s) refl m)
