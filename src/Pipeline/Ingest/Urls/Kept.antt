-- ===== src/Pipeline/Ingest/Urls/Kept.antt =====
-- The links that `_extract_urls_simple` keeps.
use review_agent_v.Prelude.{
  Text, text_eq, text_eq_iff, Bool, true, false, not, ◌&&◌, ◌||◌, List, [], ◌∷◌, if◌then◌else◌,
  one_of, ◌≡◌, refl, ap, ◌∙◌, inl, inr, arith, Bool-cases,
}
use mathlib.Core.Path.{subst}
use review_agent_v.Pipeline.Ingest.Urls.{extract_urls_simple, web_links, keep_web, is_lark_doc}

-- Each text of the list stands there once.
unfoldable pub IsDistinct : List Text → Type 0
unfolding one_of
IsDistinct [] = Unit {0}
IsDistinct (u ∷ us) = (one_of u us ≡ false) × IsDistinct us

-- What is found in the list that one link more gives, by the tests of the loop.
abbrev kept_after : (same known doc here later : Bool) → Bool
kept_after same known doc here later = if known then here else if doc then later else same || later

one_of-keep_web_cons :
    (u v : Text) (seen us : List Text)
    → one_of u (keep_web seen (v ∷ us))
      ≡ kept_after
          (text_eq u v)
          (one_of v seen)
          (is_lark_doc v)
          (one_of u (keep_web seen us))
          (one_of u (keep_web (v ∷ seen) us))
unfolding keep_web
one_of-keep_web_cons u v seen us = elim (Bool-cases (one_of v seen)) [
  | inl old ↦ rw old
  | inr new ↦ elim (Bool-cases (is_lark_doc v)) [
    | inl doc ↦ rw (new, doc)
    | inr web ↦ rw (new, web)
  ]
]

one_of-cons : (u v : Text) (us : List Text) → one_of u (v ∷ us) ≡ (text_eq u v || one_of u us)
unfolding one_of
one_of-cons u v us = refl

Kept : (u : Text) (seen us : List Text) → Type 0
Kept u seen us =
    one_of u (keep_web seen us) ≡ (one_of u us && (not (is_lark_doc u) && not (one_of u seen)))

kept_same :
    (known doc found here later : Bool)
    → here ≡ (found && (not doc && not known))
    → later ≡ (found && (not doc && false))
    → kept_after true known doc here later ≡ (not doc && not known)
kept_same known doc found here later h k = ground arith

kept_other :
    (known doc known' doc' found here later : Bool)
    → here ≡ (found && (not doc && not known))
    → later ≡ (found && (not doc && not known))
    → kept_after false known' doc' here later ≡ (found && (not doc && not known))
kept_other known doc known' doc' found here later h k = ground arith

one_of-keep_web_nil : (u : Text) (seen : List Text) → Kept u seen []
unfolding Kept one_of keep_web
one_of-keep_web_nil u seen = refl

one_of-keep_web : (u : Text) (seen us : List Text) → Kept u seen us
unfolding Kept
one_of-keep_web u seen [] = one_of-keep_web_nil u seen
one_of-keep_web u seen (v ∷ us) = elim (Bool-cases (text_eq u v)) [
  | inl same ↦
      subst (λ x. Kept u seen (x ∷ us)) ((text_eq_iff u v).0 same)
        (rw (one_of-keep_web_cons u u seen us, one_of-cons u u us, (text_eq_iff u u).1 refl)
          (kept_same (one_of u seen) (is_lark_doc u) (one_of u us) _ _ (one_of-keep_web u seen us) (
            one_of-keep_web u (u ∷ seen) us ∙ rw (one_of-cons u u seen, (text_eq_iff u u).1 refl))))
  | inr other ↦
      rw (one_of-keep_web_cons u v seen us, one_of-cons u v us, other)
        (kept_other (one_of u seen) (is_lark_doc u) (one_of v seen) (is_lark_doc v) (one_of u us) _
          _ (one_of-keep_web u seen us)
          (one_of-keep_web u (v ∷ seen) us ∙ rw (one_of-cons u v seen, other)))
]

dropped : (u : Text) (seen us : List Text) → one_of u (keep_web (u ∷ seen) us) ≡ false
unfolding Kept
dropped u seen us =
    one_of-keep_web u (u ∷ seen) us
    ∙ rw (one_of-cons u u seen, (text_eq_iff u u).1 refl) (ground arith)

IsDistinct-keep_web : (seen us : List Text) → IsDistinct (keep_web seen us)
unfolding IsDistinct keep_web
IsDistinct-keep_web seen [] = tt
IsDistinct-keep_web seen (u ∷ us) = elim (Bool-cases (one_of u seen)) [
  | inl old ↦ rw old (IsDistinct-keep_web seen us)
  | inr new ↦ elim (Bool-cases (is_lark_doc u)) [
    | inl doc ↦ rw (new, doc) (IsDistinct-keep_web (u ∷ seen) us)
    | inr web ↦ rw (new, web) (dropped u seen us, IsDistinct-keep_web (u ∷ seen) us)
  ]
]

and_true : (b : Bool) → (b && true) ≡ b
and_true b = ground arith

one_of-kept :
    (u : Text) (us : List Text) → one_of u (keep_web [] us) ≡ (one_of u us && not (is_lark_doc u))
unfolding Kept one_of
one_of-kept u us =
    one_of-keep_web u [] us ∙ ap (λ b. one_of u us && b) (and_true (not (is_lark_doc u)))

-- The links that _extract_urls_simple gives are distinct, and a text is among them exactly if it
-- is one of the links that were found and does not lead to a document of Lark.
pub extract_urls_simple_kept :
    (text u : Text)
    → IsDistinct (extract_urls_simple text)
      × (one_of u (extract_urls_simple text) ≡ (one_of u (web_links text) && not (is_lark_doc u)))
unfolding extract_urls_simple
extract_urls_simple_kept text u =
    (IsDistinct-keep_web [] (web_links text), one_of-kept u (web_links text))
