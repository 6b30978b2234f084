-- ===== src/Pipeline/Scan/Parse/Digits.antt =====
-- The fuel of `show` is enough.
use review_agent_v.Prelude.{
  Text, ℕ, zero, suc, ◌+◌, ◌/◌, ◌%◌, ◌<◌, ltb, false, [], ◌∷◌, ◌++◌, ◌≡◌, refl, arith, ap, inl, inr,
  Bool-cases,
}
use review_agent_v.Pipeline.Scan.Parse.{digits, show}

div_less : (n f : ℕ) → n < suc f → ltb n 10 ≡ false → n / 10 < f
div_less n f h k = ground arith

digits_agree : (f g n : ℕ) → n < f → n < g → digits f n ≡ digits g n
unfolding digits
digits_agree zero g n h k = absurd (omega arith)
digits_agree (suc f) zero n h k = absurd (omega arith)
digits_agree (suc f) (suc g) n h k = elim (Bool-cases (ltb n 10)) [
  | inl one ↦ rw one refl
  | inr more ↦ rw more (
      ap (λ (t : Text). t ++ (b'0' + n % 10) ∷ [])
        (digits_agree f g (n / 10) (div_less n f h more) (div_less n g k more)))
]

-- Any fuel above the number gives the digits that show gives, so that the fuel of show is enough.
pub digits-show : (fuel n : ℕ) → n < fuel → digits fuel n ≡ show n
unfolding show
digits-show fuel n h = digits_agree fuel (suc n) n h (omega arith)
