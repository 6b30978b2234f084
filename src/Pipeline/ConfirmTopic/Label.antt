-- ===== src/Pipeline/ConfirmTopic/Label.antt =====
-- The subject that is stored is short and not empty.
use review_agent_v.Prelude.{
  Text, ℕ, ◌≤◌, ◌<◌, Bool, [], ◌∷◌, length, strip, lstrip_if, rstrip_if, cons_unless, is_space,
  arith,
}
use review_agent_v.Util.Md.Bounds.{length-shorten-le}
use review_agent_v.Pipeline.ConfirmTopic.{cut, clip, separators, or_untitled, trim_subject}

length-lstrip_if-le : (p : ℕ → Bool) (s : Text) → length (lstrip_if p s) ≤ length s
unfolding lstrip_if
length-lstrip_if-le p [] = omega arith
length-lstrip_if-le p (c ∷ s) = ground (arith, length-lstrip_if-le p s)

length-cons_unless-le :
    (p : ℕ → Bool) (c : ℕ) (s : Text) → length (cons_unless p c s) ≤ length (c ∷ s)
unfolding cons_unless
length-cons_unless-le p c [] = ground arith
length-cons_unless-le p c (d ∷ s) = omega arith

length-rstrip_if-le : (p : ℕ → Bool) (s : Text) → length (rstrip_if p s) ≤ length s
unfolding rstrip_if
length-rstrip_if-le p [] = omega arith
length-rstrip_if-le p (c ∷ s) =
    omega (arith, length-cons_unless-le p c (rstrip_if p s), length-rstrip_if-le p s)

length-strip-le : (s : Text) → length (strip s) ≤ length s
unfolding strip
length-strip-le s =
    omega
      (arith, length-rstrip_if-le is_space (lstrip_if is_space s), length-lstrip_if-le is_space s)

length-clip-le : (s : Text) → length (clip s) ≤ 60
unfolding clip
length-clip-le s = length-shorten-le 60 s (omega arith)

length-or_untitled :
    (s : Text) → length s ≤ 60 → (0 < length (or_untitled s)) × (length (or_untitled s) ≤ 60)
length-or_untitled [] h = (omega arith, omega arith)
length-or_untitled (c ∷ s) h = (omega arith, h)

-- Whatever the text, the subject made of it has at least one and at most 60 characters.
pub length-trim_subject :
    (text : Text) → (0 < length (trim_subject text)) × (length (trim_subject text) ≤ 60)
unfolding trim_subject
length-trim_subject text =
    let t = clip (cut separators (strip text)) in
    length-or_untitled (strip t)
      (omega (arith, length-strip-le t, length-clip-le (cut separators (strip text))))
