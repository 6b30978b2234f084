-- ===== src/Pipeline/Extract.antt =====
-- review_agent/pipeline/_json.py: the JSON value in an answer of the model. `loads` is `json.loads`,
-- `none` its JSONDecodeError; the result `none` is LLMOutputParseError.
pub mod Sound
use mathlib.Core.List.{reverse}
use review_agent_v.Prelude.{
  Text, txt, text_eq, ℕ, zero, suc, ◌-◌, eqb, Bool, true, false, ◌||◌, Option, none, some, List, [],
  ◌∷◌, drop, take, length, strip, lstrip, rstrip, starts_with, ends_with, if◌then◌else◌,
}
use review_agent_v.Prelude.Json.{Json, ℤ, pos, negsuc}

abbrev drop_if : Text → Text → Text
drop_if prefix s = if starts_with s prefix then drop (length prefix) s else s

-- re.sub(r"^```(?:json)?\s*", "", s)
unfoldable pub strip_opening : Text → Text
unfolding starts_with lstrip
strip_opening s = if starts_with s (txt "```") then lstrip (drop_if (txt "json") (drop 3 s)) else s

-- re.sub(r"\s*```\s*$", "", s), on a text with no space at its end
unfoldable pub strip_closing : Text → Text
unfolding ends_with rstrip
strip_closing s = if ends_with s (txt "```") then rstrip (take (length s - 3) s) else s

-- A `}` or `]` comes next, after spaces.
abbrev closes : Text → Bool
closes s = starts_with (lstrip s) (txt "}") || starts_with (lstrip s) (txt "]")

-- re.sub(r",(\s*[}\]])", r"\1", chunk)
unfoldable pub drop_commas : Text → Text
unfolding starts_with lstrip
drop_commas [] = []
drop_commas (c ∷ s) =
    let rest = drop_commas s in
    if eqb c b',' then (if closes s then rest else c ∷ rest) else c ∷ rest

abbrev pub up : ℤ → ℤ
up (pos n) = pos (suc n)
up (negsuc zero) = pos 0
up (negsuc (suc n)) = negsuc n

abbrev pub down : ℤ → ℤ
down (pos zero) = negsuc 0
down (pos (suc n)) = pos n
down (negsuc n) = negsuc (suc n)

abbrev pub is_zero : ℤ → Bool
is_zero (pos zero) = true
is_zero _ = false

-- `try: return a` / `except JSONDecodeError:` the rest
abbrev pub or_else : Option Json → Option Json → Option Json
or_else none rest = rest
or_else (some v) rest = some v

module _ (loads : Text → Option Json) where
  -- The loop over `range(start, len(s))`. `seen` is `s[start:i]`, reversed.
  unfoldable pub scan_balanced : (opener closer : ℕ) → ℤ → (seen rest : Text) → Option Json
  unfolding drop_commas
  scan_balanced opener closer depth seen [] = none
  scan_balanced opener closer depth seen (c ∷ rest) =
      let opened = scan_balanced opener closer (up depth) (c ∷ seen) rest in
      let closed = scan_balanced opener closer (down depth) (c ∷ seen) rest in
      let other = scan_balanced opener closer depth (c ∷ seen) rest in
      if eqb c opener
      then opened
      else if eqb c closer
      then (if is_zero (down depth)
          then or_else (loads (drop_commas (reverse (c ∷ seen)))) closed
          else closed)
      else other

  -- From the first `opener` on; there may be none.
  unfoldable pub from_first : (opener closer : ℕ) → Text → Option Json
  unfolding scan_balanced
  from_first opener closer [] = none
  from_first opener closer (c ∷ s) =
      if eqb c opener
      then scan_balanced opener closer (pos 0) [] (c ∷ s)
      else from_first opener closer s

  unfoldable pub extract_from : Text → Option Json
  unfolding from_first
  extract_from s = or_else (loads s) (or_else (from_first b'{' b'}' s) (from_first b'[' b']' s))

  unfoldable pub extract : Text → Option Json
  unfolding extract_from strip strip_opening strip_closing
  extract text = elim (strip text) [
    | [] ↦ none
    | c ∷ s ↦ extract_from (strip_closing (strip_opening (c ∷ s)))
  ]
