-- ===== src/Prelude/Strings.antt =====
-- Python's `str` as the list of its code points, and the methods of `str` that the program calls.
-- `str.lower` is the one that needs the Unicode tables: it is a parameter where it is called.
use Prim.Native.Nat.{ℕ, suc}
use Prim.Native.Char.{code}
use Prim.Native.String.{String}
use mathlib.Core.Path.{◌≡◌}
use mathlib.Core.Logic.{◌↔◌}
use mathlib.Core.Bool.{Bool, true, false, ◌&&◌, ◌||◌}
use mathlib.Core.Option.{Option, none, some}
use mathlib.Core.List.{List, [], ◌∷◌, reverse}
use native.Mathlib.Omega.{arith}
use review_agent_v.Prelude.Tests.{leb, eqb, if◌then◌else◌}
use review_agent_v.Prelude.Lists.{any}

abbrev pub Text : Type 0
Text = List ℕ

-- A literal.
abbrev pub txt : String → Text
txt String.[] = []
txt (String.◌∷◌ c s) = code c ∷ txt s

-- s == t
unfoldable pub text_eq : Text → Text → Bool
text_eq [] [] = true
text_eq [] (d ∷ t) = false
text_eq (c ∷ s) [] = false
text_eq (c ∷ s) (d ∷ t) = eqb c d && text_eq s t

pub text_eq_iff : (s t : Text) → (text_eq s t ≡ true) ↔ (s ≡ t)
unfolding text_eq
text_eq_iff [] [] = ground arith
text_eq_iff [] (d ∷ t) = ground arith
text_eq_iff (c ∷ s) [] = ground arith
text_eq_iff (c ∷ s) (d ∷ t) = ground (arith, text_eq_iff s t)

pub text_ne : (s t : Text) → text_eq s t ≡ false → s ≡ t → ⊥
text_ne s t h e = ground (arith, text_eq_iff s t)

-- `str.isspace` of one code point; `\s` of `re` is the same set.
unfoldable pub is_space : ℕ → Bool
is_space c =
    leb 9 c && leb c 13
    || leb 28 c && leb c 32
    || eqb c 0x85
    || eqb c 0xa0
    || eqb c 0x1680
    || leb 0x2000 c && leb c 0x200a
    || eqb c 0x2028
    || eqb c 0x2029
    || eqb c 0x202f
    || eqb c 0x205f
    || eqb c 0x3000

-- s.startswith(p)
unfoldable pub starts_with : Text → Text → Bool
starts_with s [] = true
starts_with [] (d ∷ p) = false
starts_with (c ∷ s) (d ∷ p) = eqb c d && starts_with s p

unfoldable pub lstrip_if : (ℕ → Bool) → Text → Text
lstrip_if p [] = []
lstrip_if p (c ∷ s) = if p c then lstrip_if p s else c ∷ s

-- A character of the set goes if nothing is left behind it.
unfoldable pub cons_unless : (ℕ → Bool) → ℕ → Text → Text
cons_unless p c [] = if p c then [] else c ∷ []
cons_unless p c (d ∷ r) = c ∷ d ∷ r

unfoldable pub rstrip_if : (ℕ → Bool) → Text → Text
unfolding cons_unless
rstrip_if p [] = []
rstrip_if p (c ∷ s) = cons_unless p c (rstrip_if p s)

-- s.strip()
unfoldable pub strip : Text → Text
unfolding lstrip_if rstrip_if is_space
strip s = rstrip_if is_space (lstrip_if is_space s)

-- s.lstrip(), s.rstrip()
unfoldable pub lstrip : Text → Text
unfolding lstrip_if is_space
lstrip = lstrip_if is_space

unfoldable pub rstrip : Text → Text
unfolding rstrip_if is_space
rstrip = rstrip_if is_space

-- s.endswith(p)
unfoldable pub ends_with : Text → Text → Bool
unfolding starts_with
ends_with s p = starts_with (reverse s) (reverse p)

-- p in s
unfoldable pub contains : Text → Text → Bool
unfolding starts_with
contains [] p = starts_with [] p
contains (c ∷ s) p = starts_with (c ∷ s) p || contains s p

-- s.find(p): the first place where p begins.
unfoldable pub find_from : ℕ → Text → Text → Option ℕ
unfolding starts_with
find_from i [] p = if starts_with [] p then some i else none
find_from i (c ∷ s) p = if starts_with (c ∷ s) p then some i else find_from (suc i) s p

-- s in {…}
unfoldable pub one_of : Text → List Text → Bool
unfolding text_eq
one_of s words = any (text_eq s) words
