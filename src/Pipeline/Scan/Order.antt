-- ===== src/Pipeline/Scan/Order.antt =====
-- The order in which findings are asked.
use mathlib.Core.List.{Perm}
use mathlib.Core.List.Perm
use review_agent_v.Prelude.{
  ℕ, ◌≤◌, true, false, List, [], ◌∷◌, ◌≡◌, arith, All, Bool-cases, inl, inr,
}
use review_agent_v.Core.Models.{Finding}
use review_agent_v.Pipeline.Scan.{key_lt, insert_by_key, sort_by_key, sev_order}

insert_by_key-perm : (f : Finding) (fs : List Finding) → Perm (insert_by_key f fs) (f ∷ fs)
unfolding insert_by_key
insert_by_key-perm f [] = Perm.refl (f ∷ [])
insert_by_key-perm f (g ∷ fs) = elim (Bool-cases (key_lt g f)) [
  | inl less ↦ rw less (Perm.trans (Perm.cons g (insert_by_key-perm f fs)) (Perm.swap f g fs))
  | inr not_less ↦ rw not_less (Perm.refl (f ∷ g ∷ fs))
]

-- Sorting neither loses nor invents a finding.
pub sort_by_key-perm : (fs : List Finding) → Perm (sort_by_key fs) fs
unfolding sort_by_key
sort_by_key-perm [] = Perm.refl []
sort_by_key-perm (f ∷ fs) =
    Perm.trans (insert_by_key-perm f (sort_by_key fs)) (Perm.cons f (sort_by_key-perm fs))

-- No finding stands behind one that is less severe.
abbrev pub IsSorted : List Finding → Type 0
IsSorted [] = Unit
IsSorted (f ∷ fs) = All (λ g. sev_order f.severity ≤ sev_order g.severity) fs × IsSorted fs

key_lt-le : (f g : Finding) → key_lt f g ≡ true → sev_order f.severity ≤ sev_order g.severity
unfolding key_lt
key_lt-le f g h = ground arith

key_ge-le : (f g : Finding) → key_lt g f ≡ false → sev_order f.severity ≤ sev_order g.severity
unfolding key_lt
key_ge-le f g h = ground arith

abbrev Below : ℕ → List Finding → Type 0
Below n fs = All (λ g. n ≤ sev_order g.severity) fs

Below-insert_by_key :
    (n : ℕ) (f : Finding) (fs : List Finding)
    → n ≤ sev_order f.severity
    → Below n fs
    → Below n (insert_by_key f fs)
unfolding insert_by_key
Below-insert_by_key n f [] h b = (h, tt)
Below-insert_by_key n f (g ∷ fs) h b = elim (Bool-cases (key_lt g f)) [
  | inl less ↦ rw less (b.0, Below-insert_by_key n f fs h b.1)
  | inr not_less ↦ rw not_less (h, b)
]

Below-mono : (m n : ℕ) (fs : List Finding) → m ≤ n → Below n fs → Below m fs
Below-mono m n [] h b = tt
Below-mono m n (f ∷ fs) h b = (omega arith, Below-mono m n fs h b.1)

IsSorted-insert_by_key :
    (f : Finding) (fs : List Finding) → IsSorted fs → IsSorted (insert_by_key f fs)
unfolding insert_by_key
IsSorted-insert_by_key f [] s = (tt, tt)
IsSorted-insert_by_key f (g ∷ fs) s = elim (Bool-cases (key_lt g f)) [
  | inl less ↦ rw less (
    Below-insert_by_key (sev_order g.severity) f fs (key_lt-le g f less) s.0,
    IsSorted-insert_by_key f fs s.1,
  )
  | inr not_less ↦
      let le = key_ge-le f g not_less in
      rw not_less ((le, Below-mono _ (sev_order g.severity) fs le s.0), s)
]

pub sort_by_key-IsSorted : (fs : List Finding) → IsSorted (sort_by_key fs)
unfolding sort_by_key
sort_by_key-IsSorted [] = tt
sort_by_key-IsSorted (f ∷ fs) = IsSorted-insert_by_key f (sort_by_key fs) (sort_by_key-IsSorted fs)
