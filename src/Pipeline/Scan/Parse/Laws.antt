-- ===== src/Pipeline/Scan/Parse/Laws.antt =====
-- What the findings that are read from the model's answer have in common.
use mathlib.Core.Path.{subst}
use review_agent_v.Prelude.{
  Text, Bool, true, false, if◌then◌else◌, ℕ, suc, ◌≤◌, Option, none, some, List, [], ◌∷◌, ◌++◌,
  length, ◌≡◌, ◌≢◌, refl, arith, All,
}
use review_agent_v.Prelude.Json.{Json, str, obj, Fields, bool, num, truthy, get_or, null, arr}
use review_agent_v.Core.Enums.{FindingSource, FindingStatus}
use review_agent_v.Core.Models.{Finding}
use review_agent_v.Pipeline.Scan.Parse.{
  Parsed, parsed, skip, crash, ◌>>=◌, id_of, show, keep, parse_fields, parse_item, parse_items,
}

-- The value, where there is one.
unfoldable Gives : {A : Type 0} → (A → Type 0) → Parsed A → Type 0
Gives P (parsed a) = P a
Gives P skip = Unit
Gives P crash = Unit

Gives-bind :
    {A B : Type 0} (P : B → Type 0) (m : Parsed A) (f : A → Parsed B)
    → ((a : A) → Gives P (f a))
    → Gives P (m >>= f)
unfolding Gives ◌>>=◌
Gives-bind P (parsed a) f h = h a
Gives-bind P skip f h = tt
Gives-bind P crash f h = tt

Gives-bind_with :
    {A B : Type 0} (Q : A → Type 0) (P : B → Type 0) (m : Parsed A) (f : A → Parsed B)
    → Gives Q m
    → ((a : A) → Q a → Gives P (f a))
    → Gives P (m >>= f)
unfolding Gives ◌>>=◌
Gives-bind_with Q P (parsed a) f q h = h a q
Gives-bind_with Q P skip f q h = tt
Gives-bind_with Q P crash f q h = tt

crash_if-Gives :
    (b : Bool) (c : ℕ) (s : Text) → Gives (λ t. t ≢ []) (if b then crash else parsed (c ∷ s))
unfolding Gives
crash_if-Gives true c s = tt
crash_if-Gives false c s = λ h. cc

id_of-nonempty : (c : ℕ) (p : Text) (i : ℕ) (v : Json) → Gives (λ t. t ≢ []) (id_of (c ∷ p) i v)
unfolding id_of Gives
id_of-nonempty c p i (str (d ∷ s)) = λ h. cc
id_of-nonempty c p i (str []) = crash_if-Gives (truthy (str [])) c (p ++ show i)
id_of-nonempty c p i null = crash_if-Gives (truthy null) c (p ++ show i)
id_of-nonempty c p i (bool b) = crash_if-Gives (truthy (bool b)) c (p ++ show i)
id_of-nonempty c p i (num n) = crash_if-Gives (truthy (num n)) c (p ++ show i)
id_of-nonempty c p i (arr xs) = crash_if-Gives (truthy (arr xs)) c (p ++ show i)
id_of-nonempty c p i (obj d) = crash_if-Gives (truthy (obj d)) c (p ++ show i)

module _ (upper sha256 : Text → Text) (normalized now : Text) (source : FindingSource) (c : ℕ)
    (p : Text) where
  -- An open finding of the first round, from the given source, with an identifier.
  abbrev pub IsFresh : Finding → Type 0
  IsFresh f = (f.id ≢ []) × (f.status ≡ FindingStatus.opened) × (f.round ≡ 1) × (f.source ≡ source)

  fresh :
      (f : Finding)
      → f.id ≢ []
      → f.status ≡ FindingStatus.opened
      → f.round ≡ 1
      → f.source ≡ source
      → Gives IsFresh (parsed f)
  unfolding Gives
  fresh f a b c d = (a, b, c, d)

  parse_fields-Gives :
      (i : ℕ) (item : Fields)
      → Gives IsFresh (parse_fields upper sha256 normalized now source (c ∷ p) i item)
  unfolding parse_fields
  parse_fields-Gives i item = Gives-bind IsFresh _ _ λ a1. Gives-bind IsFresh _ _ λ a2.
      Gives-bind IsFresh _ _ λ a3. Gives-bind IsFresh _ _ λ a4. Gives-bind IsFresh _ _ λ a5.
        Gives-bind IsFresh _ _ λ a6. Gives-bind IsFresh _ _ λ a7. Gives-bind IsFresh _ _ λ a8.
          Gives-bind_with (λ t. t ≢ []) IsFresh _ _ (id_of-nonempty c p i (get_or "id" null item))
            λ fid n. Gives-bind IsFresh _ _ λ a10. fresh _ n refl refl refl

  parse_item-Gives :
      (i : ℕ) (item : Json)
      → Gives IsFresh (parse_item upper sha256 normalized now source (c ∷ p) i item)
  unfolding parse_item Gives
  parse_item-Gives i (obj d) = parse_fields-Gives i d
  parse_item-Gives i null = tt
  parse_item-Gives i (bool b) = tt
  parse_item-Gives i (num n) = tt
  parse_item-Gives i (str s) = tt
  parse_item-Gives i (arr xs) = tt

  -- What the loop has so far.
  abbrev Good : ℕ → Option (List Finding) → Type 0
  Good n none = Unit
  Good n (some fs) = All IsFresh fs × (length fs ≤ n)

  keep-Good :
      (m : Parsed Finding) (r : Option (List Finding)) (n : ℕ)
      → Gives IsFresh m
      → Good n r
      → Good (suc n) (keep m r)
  unfolding Gives
  keep-Good (parsed f) (some fs) n g h = ((g, h.0), omega arith)
  keep-Good (parsed f) none n g h = tt
  keep-Good skip (some fs) n g h = (h.0, omega arith)
  keep-Good skip none n g h = tt
  keep-Good crash r n g h = tt

  parse_items-Good :
      (i : ℕ) (xs : List Json)
      → Good (length xs) (parse_items upper sha256 normalized now source (c ∷ p) i xs)
  unfolding parse_items
  parse_items-Good i [] = (tt, omega arith)
  parse_items-Good i (x ∷ xs) =
      keep-Good (parse_item upper sha256 normalized now source (c ∷ p) i x) _ (length xs)
        (parse_item-Gives i x) (parse_items-Good (suc i) xs)

  Good-some :
      (n : ℕ) (r : Option (List Finding)) (fs : List Finding)
      → Good n r
      → r ≡ some fs
      → All IsFresh fs × (length fs ≤ n)
  Good-some n r fs g h = subst (λ z. Good n z) h g

  -- Where a list of items is read at all, no more findings come out than there were items, and
  -- each is an open finding of the first round, from the given source, with an identifier that is
  -- not empty, as the prefix of the generated identifiers is not.
  pub parse_items-IsFresh :
      (i : ℕ) (xs : List Json) (fs : List Finding)
      → parse_items upper sha256 normalized now source (c ∷ p) i xs ≡ some fs
      → All IsFresh fs × (length fs ≤ length xs)
  parse_items-IsFresh i xs fs h =
      Good-some (length xs) (parse_items upper sha256 normalized now source (c ∷ p) i xs) fs
        (parse_items-Good i xs) h
