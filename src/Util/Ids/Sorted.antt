-- ===== src/Util/Ids/Sorted.antt =====
-- The length of an identifier, and the order of two of them.
use review_agent_v.Prelude.{
  Text, ℕ, zero, suc, ◌/◌, ◌%◌, ◌^◌, ◌<◌, ltb, Bool, true, ◌&&◌, List, [], ◌∷◌, ◌++◌, get_elem?,
  length, length-append, ◌≡◌, refl, sym, ◌∙◌, ◌⊎◌, inl, inr, arith,
}
use review_agent_v.Core.Storage.Sessions.{text_lt}
use review_agent_v.Util.Ids.{ulid, base32, last_digit, from_bytes, ulid_alphabet, or_zero}

length-base32 : (count n : ℕ) → length (base32 count n) ≡ count
unfolding base32
length-base32 zero n = refl
length-base32 (suc count) n =
    omega (
      arith,
      length-append (base32 count (n / 32)) (last_digit n ∷ []),
      length-base32 count (n / 32),
    )

-- An identifier has 26 characters.
length-ulid : (ts_ms : ℕ) (rand : List ℕ) → length (ulid ts_ms rand) ≡ 26
unfolding ulid
length-ulid ts_ms rand = omega (
  arith,
  length-append (base32 10 ts_ms) (base32 16 (from_bytes 0 rand)),
  length-base32 10 ts_ms,
  length-base32 16 (from_bytes 0 rand),
)

-- Each digit of the alphabet is above the ones before it.
rises : ℕ → Text → Bool
rises low [] = true
rises low (c ∷ s) = ltb low c && rises c s

text_lt-append_same : (s u v : Text) → text_lt u v ≡ true → text_lt (s ++ u) (s ++ v) ≡ true
unfolding text_lt
text_lt-append_same [] u v h = h
text_lt-append_same (c ∷ s) u v h = ground (arith, text_lt-append_same s u v h)

-- Where the first parts are as long as each other, their order is that of the whole.
text_lt-append :
    (s t u v : Text) → length s ≡ length t → text_lt s t ≡ true → text_lt (s ++ u) (t ++ v) ≡ true
unfolding text_lt
text_lt-append [] [] u v e h = ground arith
text_lt-append [] (d ∷ t) u v e h = ground arith
text_lt-append (c ∷ s) [] u v e h = ground arith
text_lt-append (c ∷ s) (d ∷ t) u v e h = ground (arith, text_lt-append s t u v (omega arith))

digits_in_order : rises 0 ulid_alphabet ≡ true
unfolding rises
digits_in_order = refl

first_rises : (low c : ℕ) (s : Text) → rises low (c ∷ s) ≡ true → low < c
unfolding rises
first_rises low c s r = ground arith

-- Below `low` there is no digit of an alphabet that rises from it.
above_low :
    (low i : ℕ) (s : Text) → rises low s ≡ true → i < length s → low < or_zero (get_elem? s i)
unfolding rises
above_low low i [] r h = omega arith
above_low low zero (c ∷ s) r h = ground arith
above_low low (suc i) (c ∷ s) r h =
    omega (arith, first_rises low c s r, above_low c i s (ground arith) (omega arith))

digit_rises :
    (low i j : ℕ) (s : Text)
    → rises low s ≡ true
    → i < j
    → j < length s
    → or_zero (get_elem? s i) < or_zero (get_elem? s j)
unfolding rises
digit_rises low i j [] r l h = omega arith
digit_rises low i zero (c ∷ s) r l h = omega arith
digit_rises low zero (suc j) (c ∷ s) r l h = above_low c j s (ground arith) (omega arith)
digit_rises low (suc i) (suc j) (c ∷ s) r l h =
    digit_rises c i j s (ground arith) (omega arith) (omega arith)

last_digit_rises : (m n : ℕ) → m % 32 < n % 32 → last_digit m < last_digit n
unfolding last_digit
last_digit_rises m n l =
    digit_rises 0 (m % 32) (n % 32) ulid_alphabet digits_in_order l (omega arith)

text_lt-digits : (c d : ℕ) → c < d → text_lt (c ∷ []) (d ∷ []) ≡ true
unfolding text_lt
text_lt-digits c d l = ground arith

quotients : (m n : ℕ) → m < n → (m / 32 < n / 32) ⊎ ((m / 32 ≡ n / 32) × (m % 32 < n % 32))
quotients m n l = ground arith

quotient_fits : (count n : ℕ) → n < 32 ^ suc count → n / 32 < 32 ^ count
quotient_fits count n h = omega arith

-- The texts of two numbers that fit have the order of the numbers.
text_lt-base32 :
    (count m n : ℕ) → m < n → n < 32 ^ count → text_lt (base32 count m) (base32 count n) ≡ true
unfolding base32
text_lt-base32 zero m n l h = ground arith
text_lt-base32 (suc count) m n l h = elim (quotients m n l) [
  | inl less ↦
      text_lt-append (base32 count (m / 32)) (base32 count (n / 32)) (last_digit m ∷ [])
        (last_digit n ∷ []) (length-base32 count (m / 32) ∙ sym (length-base32 count (n / 32)))
        (text_lt-base32 count (m / 32) (n / 32) less (quotient_fits count n h))
  | inr (same, digits) ↦ rw same (
      text_lt-append_same (base32 count (n / 32)) (last_digit m ∷ []) (last_digit n ∷ [])
        (text_lt-digits (last_digit m) (last_digit n) (last_digit_rises m n digits)))
]

-- Of two identifiers with whatever random bytes, the one that was made at an earlier millisecond
-- is in front, where the times have fifty bits at most.
pub ulid_sorts_by_time :
    (m n : ℕ) (rand rand' : List ℕ)
    → m < n
    → n < 2 ^ 50
    → text_lt (ulid m rand) (ulid n rand') ≡ true
unfolding ulid
ulid_sorts_by_time m n rand rand' l h =
    text_lt-append (base32 10 m) (base32 10 n) (base32 16 (from_bytes 0 rand))
      (base32 16 (from_bytes 0 rand')) (length-base32 10 m ∙ sym (length-base32 10 n))
      (text_lt-base32 10 m n l h)
