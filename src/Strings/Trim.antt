-- ===== src/Strings/Trim.antt =====
-- strings.TrimSpace: the loop ends with nothing left to cut at either end.
use mathlib.Core.List.{reverse, reverse_aux, reverse-append, reverse-reverse, append_assoc}
use auth_service.Prelude.{
  ℕ, zero, suc, ◌+◌, ◌≤◌, ◌≡◌, ◌⊎◌, inl, inr, refl, sym, ◌∙◌, ap, subst, Text, none, some, List, [],
  ◌∷◌, ◌++◌, map, length, Option-cases, arith,
}
use auth_service.Strings.{cut_prefix, cut_any, cut_all, spaces, trim_space}

abbrev OneOf : Text → List Text → Type 0
OneOf p [] = ⊥
OneOf p (q ∷ qs) = (p ≡ q) ⊎ OneOf p qs

abbrev AllLong : List Text → Type 0
AllLong [] = Unit {0}
AllLong (p ∷ ps) = (1 ≤ length p) × AllLong ps

-- A text that is put together of the given ones.
pub data MadeOf (ps : List Text) : Text → Type 0 where
  of_none : MadeOf ps []
  of_more : (p s : Text) → OneOf p ps → MadeOf ps s → MadeOf ps (p ++ s)

cut_prefix-append : (s p r : Text) → cut_prefix s p ≡ some r → s ≡ p ++ r
unfolding cut_prefix
cut_prefix-append s [] r e = cc
cut_prefix-append [] (p ∷ ps) r e = absurd (cc)
cut_prefix-append (c ∷ s) (p ∷ ps) r e = ground (arith, cut_prefix-append s ps r)

cut_prefix-longer :
    (s p r t : Text) → cut_prefix s p ≡ some r → cut_prefix (s ++ t) p ≡ some (r ++ t)
unfolding cut_prefix
cut_prefix-longer s [] r t e = ap (λ o. elim o [ none ↦ none | some x ↦ some (x ++ t) ]) e
cut_prefix-longer [] (p ∷ ps) r t e = absurd (cc)
cut_prefix-longer (c ∷ s) (p ∷ ps) r t e = ground (arith, cut_prefix-longer s ps r t)

length-append : (a b : Text) → length (a ++ b) ≡ length a + length b
length-append [] b = ground arith
length-append (x ∷ a) b = ground (arith, length-append a b)

module _ where
  cut_any-append :
      (ps : List Text) (s r : Text) → cut_any ps s ≡ some r → (p : Text) × OneOf p ps × (s ≡ p ++ r)
  unfolding cut_any
  cut_any-append [] s r e = absurd (cc)
  cut_any-append (p ∷ ps) s r e = elim (Option-cases (cut_prefix s p)) [
    | inl n ↦ let (q, h, same) = cut_any-append ps s r (ground (arith, e, n)) in (q, inr h, same)
    | inr (x, n) ↦ (p, inl refl, cut_prefix-append s p r (ground (arith, e, n)))
  ]

  -- A prefix of a text with nothing to cut has nothing to cut.
  cut_any-shorter : (ps : List Text) (s t : Text) → cut_any ps (s ++ t) ≡ none → cut_any ps s ≡ none
  unfolding cut_any
  cut_any-shorter [] s t e = refl
  cut_any-shorter (p ∷ ps) s t e = elim (Option-cases (cut_prefix s p)) [
    | inl n ↦ elim (Option-cases (cut_prefix (s ++ t) p)) [
      | inl m ↦ ground (arith, n, cut_any-shorter ps s t (ground (arith, e, m)))
      | inr (y, m) ↦ absurd (ground (arith, e, m))
    ]
    | inr (x, n) ↦ absurd (ground (arith, e, cut_prefix-longer s p x t n))
  ]

  long : (p : Text) (ps : List Text) → AllLong ps → OneOf p ps → 1 ≤ length p
  long p [] l h = absurd h
  long p (q ∷ qs) (b, l) (inl e) = subst (λ x. 1 ≤ length x) (sym e) b
  long p (q ∷ qs) (b, l) (inr h) = long p qs l h

  -- With the length as fuel the loop cuts all there is to cut.
  cut_all-done :
      (ps : List Text) (n : ℕ) (s : Text)
      → AllLong ps
      → length s ≤ n
      → (cut_any ps (cut_all ps n s) ≡ none)
        × ((a : Text) × MadeOf ps a × (s ≡ a ++ cut_all ps n s))
  unfolding cut_all
  cut_all-done ps zero s l b = elim (Option-cases (cut_any ps s)) [
    | inl e ↦ (e, ([], of_none, refl))
    | inr (r, e) ↦
        let (p, h, same) = cut_any-append ps s r e in
        let size : length s ≡ length p + length r = ap length same ∙ length-append p r in
        let at_least = long p ps l h in absurd (omega arith)
  ]
  cut_all-done ps (suc n) s l b = elim (Option-cases (cut_any ps s)) [
    | inl e ↦
        subst (λ w. (cut_any ps w ≡ none) × ((a : Text) × MadeOf ps a × (s ≡ a ++ w)))
          (sym (rw (cut_all, e) refl)) (e, ([], of_none, refl))
    | inr (r, e) ↦
        let (p, h, same) = cut_any-append ps s r e in
        let size : length s ≡ length p + length r = ap length same ∙ length-append p r in
        let at_least = long p ps l h in
        let (done, (a, made, rest)) = cut_all-done ps n r l (omega arith) in
        subst (λ w. (cut_any ps w ≡ none) × ((a : Text) × MadeOf ps a × (s ≡ a ++ w)))
          (sym (rw (cut_all, e) refl))
          (
            done,
            (
              p ++ a,
              of_more p a h made,
              same ∙ ap (λ w. p ++ w) rest ∙ sym (append_assoc p a (cut_all ps n r)),
            ),
          )
  ]

spaces-AllLong : AllLong spaces
spaces-AllLong = ground arith

reversed-AllLong : AllLong (map reverse spaces)
reversed-AllLong = ground arith

length-reverse_aux : (a b : Text) → length (reverse_aux a b) ≡ length a + length b
length-reverse_aux [] b = ground arith
length-reverse_aux (x ∷ a) b = ground (arith, length-reverse_aux a (x ∷ b))

shorter : (l : Text) → length (reverse l) ≤ length l
shorter l = let size = length-reverse_aux l [] in ground (arith, size)

-- What is left of a text whose spaces are cut from its end, read from the end.
trim_space-from_end :
    (s : Text)
    → (l : Text) × ((cut_any spaces l ≡ none) × ((a : Text) × MadeOf spaces a × (s ≡ a ++ l)))
      × ((b : Text) × MadeOf (map reverse spaces) b
          × (reverse l ≡ b ++ reverse (trim_space s))
          × (cut_any (map reverse spaces) (reverse (trim_space s)) ≡ none))
unfolding trim_space
trim_space-from_end s =
    let l = cut_all spaces (length s) s in
    let w = cut_all (map reverse spaces) (length l) (reverse l) in
    let (done, (b, made, rest)) =
      cut_all-done (map reverse spaces) (length l) (reverse l) reversed-AllLong (shorter l) in
    (
      l,
      cut_all-done spaces (length s) s spaces-AllLong (omega arith),
      (
        b,
        made,
        rest ∙ ap (λ x. b ++ x) (sym (reverse-reverse w)),
        ap (cut_any (map reverse spaces)) (reverse-reverse w) ∙ done,
      ),
    )

-- TrimSpace's loops end with all white space cut: the result neither begins nor ends with the
-- encoding of a white space, and the text is that result with nothing but such encodings before it
-- and behind it.
pub trim_space_trims :
    (s : Text)
    → (cut_any spaces (trim_space s) ≡ none)
      × (cut_any (map reverse spaces) (reverse (trim_space s)) ≡ none)
      × ((a : Text) × (c : Text) × (MadeOf spaces a
            × MadeOf (map reverse spaces) (reverse c)
            × (s ≡ a ++ (trim_space s ++ c))))
trim_space_trims s =
    let (l, (open_start, (a, made, start)), (b, made', end, open_end)) = trim_space-from_end s in
    let parts : l ≡ trim_space s ++ reverse b =
      sym (reverse-reverse l)
      ∙ ap reverse end
      ∙ reverse-append b (reverse (trim_space s))
      ∙ ap (λ x. x ++ reverse b) (reverse-reverse (trim_space s)) in
    (
      cut_any-shorter spaces (trim_space s) (reverse b)
          (ap (cut_any spaces) (sym parts) ∙ open_start),
      open_end,
      (
        a,
        reverse b,
        (
          made,
          subst (MadeOf (map reverse spaces)) (sym (reverse-reverse b)) made',
          start ∙ ap (λ x. a ++ x) parts,
        ),
      ),
    )
