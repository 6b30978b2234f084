-- ===== src/Prelude/Parts.antt =====
-- Texts that stand in others, and what `in`, strip and rstrip leave of a text.
use review_agent_v.Prelude.{
  cons_unless, Text, ℕ, Bool, true, [], ◌∷◌, ◌++◌, is_space, starts_with, contains, strip,
  rstrip_if, lstrip_if, ◌≡◌, refl, sym, ap, ◌∙◌, inl, inr, arith, Bool-cases,
}
use mathlib.Core.List.{append-nil, append_assoc}

-- whole = before ++ part ++ after
abbrev pub IsPart : (part whole : Text) → Type 0
IsPart part whole = (before : Text) × (after : Text) × (whole ≡ before ++ (part ++ after))

starts_with-append : (p s : Text) → starts_with (p ++ s) p ≡ true
unfolding starts_with
starts_with-append [] [] = refl
starts_with-append [] (c ∷ s) = refl
starts_with-append (c ∷ p) s = ground (arith, starts_with-append p s)

contains-starts_with : (s p : Text) → starts_with s p ≡ true → contains s p ≡ true
unfolding contains
contains-starts_with [] p h = h
contains-starts_with (c ∷ s) p h = rw h refl

-- p in a ++ p ++ b
pub contains-append : (a p b : Text) → contains (a ++ (p ++ b)) p ≡ true
unfolding contains
contains-append [] p b = contains-starts_with (p ++ b) p (starts_with-append p b)
contains-append (c ∷ a) p b = ground (arith, contains-append a p b)

pub IsPart-contains : (p s : Text) → IsPart p s → contains s p ≡ true
IsPart-contains p s (a, b, e) = ap (λ x. contains x p) e ∙ contains-append a p b

lstrip_if-suffix : (p : ℕ → Bool) (s : Text) → (a : Text) × (s ≡ a ++ lstrip_if p s)
unfolding lstrip_if
lstrip_if-suffix p [] = ([], refl)
lstrip_if-suffix p (c ∷ s) = elim (Bool-cases (p c)) [
  | inl out ↦ rw out (c ∷ (lstrip_if-suffix p s).0, ap (λ x. c ∷ x) (lstrip_if-suffix p s).1)
  | inr kept ↦ rw kept ([], refl)
]

cons_unless-prefix :
    (p : ℕ → Bool) (c : ℕ) (r : Text) → (b : Text) × (c ∷ r ≡ cons_unless p c r ++ b)
unfolding cons_unless
cons_unless-prefix p c [] = elim (Bool-cases (p c)) [
  | inl out ↦ rw out (c ∷ [], refl)
  | inr kept ↦ rw kept ([], refl)
]
cons_unless-prefix p c (d ∷ r) = ([], ap (λ x. c ∷ d ∷ x) (sym (append-nil r)))

rstrip_if-prefix : (p : ℕ → Bool) (s : Text) → (b : Text) × (s ≡ rstrip_if p s ++ b)
unfolding rstrip_if
rstrip_if-prefix p [] = ([], refl)
rstrip_if-prefix p (c ∷ s) =
    let (b, e) = rstrip_if-prefix p s in
    let (a, f) = cons_unless-prefix p c (rstrip_if p s) in
    (
      a ++ b,
      ap (λ x. c ∷ x) e ∙ ap (λ x. x ++ b) f ∙ append_assoc (cons_unless p c (rstrip_if p s)) a b,
    )

-- What strip leaves stands in the text.
pub strip-IsPart : (s : Text) → IsPart (strip s) s
unfolding strip
strip-IsPart s =
    let (a, e) = lstrip_if-suffix is_space s in
    let (b, f) = rstrip_if-prefix is_space (lstrip_if is_space s) in (a, b, e ∙ ap (λ x. a ++ x) f)

-- What stands in the end of a text stands in the text.
pub contains-behind : (a s p : Text) → contains s p ≡ true → contains (a ++ s) p ≡ true
unfolding contains
contains-behind [] s p h = h
contains-behind (c ∷ a) s p h = ground (arith, contains-behind a s p h)
