-- ===== src/Lark/Webhook/Signature.antt =====
-- The comparison of signatures that takes the same time for all of one length.
use Prim.Native.Nat.{bit_or, bit_xor, bit_or-bitwise, bit_xor-bitwise, digits, differ, max}
use mathlib.Core.Path.{subst}
use review_agent_v.Prelude.{
  Text, ℕ, zero, suc, ◌+◌, ◌*◌, ◌/◌, ◌%◌, ◌≤◌, eqb, true, false, [], ◌∷◌, length, ◌≡◌, ◌≢◌, sym, ap,
  ◌∙◌, ◌↔◌, inl, inr, arith, Bool-cases, eqb_iff,
}
use review_agent_v.Lark.Webhook.{consttime_eq, differences}

differ_iff : (x y : ℕ) → (differ x y ≡ 0) ↔ (x ≡ y)
differ_iff zero zero = ground arith
differ_iff zero (suc y) = ground arith
differ_iff (suc x) zero = ground arith
differ_iff (suc x) (suc y) = ground (arith, differ_iff x y)

halves : (d x y : ℕ) → (d ≡ 0) ↔ (x / 2 ≡ y / 2) → ((d * 2 + differ (x % 2) (y % 2) ≡ 0) ↔ (x ≡ y))
halves d x y h = ground (arith, h, differ_iff (x % 2) (y % 2))

xor_digits : (n a b : ℕ) → a ≤ n → (digits (λ b. b) differ n a b ≡ 0) ↔ (a ≡ b)
xor_digits zero zero b h = ground arith
xor_digits zero (suc a) b h = absurd (omega arith)
xor_digits (suc n) zero b h = ground arith
xor_digits (suc n) (suc a) b h =
    halves (digits (λ b. b) differ n (suc a / 2) (b / 2)) (suc a) b
      (xor_digits n (suc a / 2) (b / 2) (omega arith))

-- The exclusive or is zero of a number with itself only.
bit_xor_zero : (a b : ℕ) → (bit_xor a b ≡ 0) ↔ (a ≡ b)
bit_xor_zero a b =
    subst (λ n. (n ≡ 0) ↔ (a ≡ b)) (sym (λ i. bit_xor-bitwise a b i))
      (xor_digits a a b (omega arith))

or_halves :
    (d x y : ℕ)
    → (d ≡ 0) ↔ ((x / 2 ≡ 0) × (y / 2 ≡ 0))
    → ((d * 2 + max (x % 2) (y % 2) ≡ 0) ↔ ((x ≡ 0) × (y ≡ 0)))
or_halves d x y h = ground (arith, h)

or_digits : (n a b : ℕ) → a ≤ n → (digits (λ b. b) max n a b ≡ 0) ↔ ((a ≡ 0) × (b ≡ 0))
or_digits zero zero b h = ground arith
or_digits zero (suc a) b h = absurd (omega arith)
or_digits (suc n) zero b h = ground arith
or_digits (suc n) (suc a) b h =
    or_halves (digits (λ b. b) max n (suc a / 2) (b / 2)) (suc a) b
      (or_digits n (suc a / 2) (b / 2) (omega arith))

bit_or_zero : (a b : ℕ) → (bit_or a b ≡ 0) ↔ ((a ≡ 0) × (b ≡ 0))
bit_or_zero a b =
    subst (λ n. (n ≡ 0) ↔ ((a ≡ 0) × (b ≡ 0))) (sym (λ i. bit_or-bitwise a b i))
      (or_digits a a b (omega arith))

differences_zero :
    (out : ℕ) (s t : Text) → length s ≡ length t → (differences out s t ≡ 0) ↔ ((out ≡ 0) × (s ≡ t))
unfolding differences
differences_zero out [] [] h = ground arith
differences_zero out [] (d ∷ t) h = absurd (omega arith)
differences_zero out (c ∷ s) [] h = absurd (omega arith)
differences_zero out (c ∷ s) (d ∷ t) h = ground (
  arith,
  differences_zero (bit_or out (bit_xor c d)) s t (omega arith),
  bit_or_zero out (bit_xor c d),
  bit_xor_zero c d,
)

false≢true : false ≢ true
false≢true h = cc

other_length : (a b : Text) → eqb (length a) (length b) ≡ false → a ≢ b
other_length a b h e = false≢true (sym h ∙ (eqb_iff (length a) (length b)).1 (ap length e))

-- The comparison that collects the differences of all characters by exclusive or says that two
-- texts are equal exactly where they are.
pub consttime_eq_iff : (a b : Text) → (consttime_eq a b ≡ true) ↔ (a ≡ b)
unfolding consttime_eq
consttime_eq_iff a b = elim (Bool-cases (eqb (length a) (length b))) [
  | inl same ↦
      rw same (ground (arith, differences_zero 0 a b ((eqb_iff (length a) (length b)).0 same)))
  | inr other ↦ rw other (ground (arith, other_length a b other))
]
