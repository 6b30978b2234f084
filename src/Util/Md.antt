-- ===== src/Util/Md.antt =====
-- review_agent/util/md.py. `sha256` is `hashlib.sha256(s.encode()).hexdigest()`.
pub mod Bounds
use review_agent_v.Prelude.{
  Text, txt, ℕ, zero, suc, ◌+◌, ◌-◌, ltb, leb, eqb, Bool, ◌||◌, ◌&&◌, List, [], ◌∷◌, ◌++◌, take,
  drop, length, if◌then◌else◌,
}
use review_agent_v.Prelude.Json.{ℤ, pos, negsuc}

unfoldable pub text_hash : (Text → Text) → Text → Text
text_hash sha256 s = txt "sha256:" ++ take 16 (sha256 s)

-- The characters at which `str.splitlines` breaks a text.
unfoldable pub is_break : ℕ → Bool
is_break c =
    leb 10 c && leb c 13 || leb 28 c && leb c 30 || eqb c 0x85 || eqb c 0x2028 || eqb c 0x2029

abbrev pub cons_first : ℕ → List Text → List Text
cons_first c [] = (c ∷ []) ∷ []
cons_first c (line ∷ lines) = (c ∷ line) ∷ lines

-- text.splitlines(): `\r\n` is one break, and a break at the end begins no line.
unfoldable pub splitlines : Text → List Text
unfolding is_break
splitlines [] = []
splitlines (c ∷ []) = if is_break c then [] ∷ [] else (c ∷ []) ∷ []
splitlines (c ∷ d ∷ s) =
    let rest = splitlines (d ∷ s) in
    if eqb c 13 && eqb d 10 then rest else if is_break c then [] ∷ rest else cons_first c rest

-- "\n".join(lines)
unfoldable pub join_lines : List Text → Text
join_lines [] = []
join_lines (line ∷ []) = line
join_lines (line ∷ next ∷ lines) = line ++ 10 ∷ join_lines (next ∷ lines)

-- max(0, start - 1)
abbrev pub line_start : ℤ → ℕ
line_start (pos n) = n - 1
line_start (negsuc n) = 0

-- The end of a slice of a list with `n` elements: a negative one counts from the end.
abbrev pub slice_end : ℕ → ℤ → ℕ
slice_end n (pos k) = k
slice_end n (negsuc k) = n - suc k

-- lines[a:b]
abbrev pub slice : ℕ → ℤ → List Text → List Text
slice a b lines = drop a (take (slice_end (length lines) b) lines)

-- `chunk[:max_chars - 1] + "…"` where the chunk is longer
unfoldable pub shorten : ℕ → Text → Text
shorten max_chars chunk =
    if ltb max_chars (length chunk) then take (max_chars - 1) chunk ++ txt "…" else chunk

unfoldable pub line_range_snippet : Text → ℤ → ℤ → ℕ → Text
unfolding splitlines join_lines shorten
line_range_snippet text start stop max_chars =
    shorten max_chars (join_lines (slice (line_start start) stop (splitlines text)))
