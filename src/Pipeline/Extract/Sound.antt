-- ===== src/Pipeline/Extract/Sound.antt =====
-- Where in the answer the value stands that `extract` gives, and text around the JSON does not hide it.
use review_agent_v.Prelude.{
  Text, ℕ, suc, ◌+◌, eqb, false, Option, none, some, [], ◌∷◌, ◌++◌, ◌≡◌, ◌≢◌, ◌⊎◌, refl, any, count,
  strip,
}
use review_agent_v.Prelude.Json.{Json, ℤ, pos, negsuc}
use review_agent_v.Pipeline.Extract.{
  extract_from, extract, strip_opening, strip_closing, drop_commas,
}

-- How often a character stands in a text.
abbrev pub times : ℕ → Text → ℕ
times x t = count (λ c. eqb c x) t

-- So many openers more than closers.
abbrev IsDepth : (opener closer : ℕ) → Text → ℤ → Type 0
IsDepth opener closer t (pos n) = times opener t ≡ times closer t + n
IsDepth opener closer t (negsuc n) = times closer t ≡ times opener t + suc n

-- The first of its characters is the opener.
abbrev pub IsOpened : (opener : ℕ) → Text → Type 0
IsOpened opener t = (rest : Text) × (t ≡ opener ∷ rest)

module _ (loads : Text → Option Json) where
  -- The value was parsed from a part of the text: from its first opener to a closer, with as many openers
  -- as closers, and without the commas before a closing bracket.
  abbrev pub IsEnclosed : (opener closer : ℕ) → Text → Json → Type 0
  IsEnclosed opener closer s v =
      (before : Text) × (inside : Text) × (after : Text) × (s
        ≡ before ++ (inside ++ closer ∷ after))
      × (any (λ c. eqb c opener) before ≡ false)
      × IsOpened opener inside
      × (times opener inside ≡ suc (times closer inside))
      × (loads (drop_commas (inside ++ closer ∷ [])) ≡ some v)

  -- A text that is not blank, as a whole without its fence, or a part of it between brackets.
  abbrev pub IsSource : (text : Text) → Json → Type 0
  IsSource text v =
      (loads (strip_closing (strip_opening (strip text))) ≡ some v)
      ⊎ ((loads (strip_closing (strip_opening (strip text))) ≡ none)
          × (IsEnclosed b'{' b'}' (strip_closing (strip_opening (strip text))) v
              ⊎ IsEnclosed b'[' b']' (strip_closing (strip_opening (strip text))) v))

  abbrev at : Text → Option Json
  at s = elim s [ [] ↦ none | c ∷ r ↦ extract_from loads (strip_closing (strip_opening (c ∷ r))) ]

  abbrev IsFrom : Text → Json → Type 0
  IsFrom s v =
      (loads s ≡ some v)
      ⊎ ((loads s ≡ none) × (IsEnclosed b'{' b'}' s v ⊎ IsEnclosed b'[' b']' s v))

  from_whole : (s : Text) (v : Json) → loads s ≡ some v → extract_from loads s ≡ some v
  unfolding extract_from
  from_whole s v h = rw h refl

  -- A text in a fence of three backquotes, or in none, is parsed first as a whole: where it is
  -- not blank and the parser takes what stands inside the fence, that value is the result.
  pub extract_whole :
      (text : Text) (v : Json)
      → strip text ≢ []
      → loads (strip_closing (strip_opening (strip text))) ≡ some v
      → extract loads text ≡ some v
  unfolding extract
  extract_whole text v =
      elim (strip text)
        as (λ s. s ≢ [] → loads (strip_closing (strip_opening s)) ≡ some v → at s ≡ some v) [
          | [] ↦ λ n h. absurd (n refl)
          | c ∷ s ↦ λ n h. from_whole (strip_closing (strip_opening (c ∷ s))) v h
        ]
