-- ===== src/Pipeline/Intents/ByStage.antt =====
-- Which intents a reply can have at which stage, and what beats what.
use review_agent_v.Prelude.{
  Text, txt, text_eq_iff, Bool, true, false, ◌||◌, ◌≡◌, ◌≢◌, refl, arith, strip, starts_with,
  one_of, ◌∙◌,
}
use review_agent_v.Core.Enums.{Intent}
use review_agent_v.Pipeline.Intents.{
  parse_reply_intent, keyword_intent, subject_intent, qa_intent, accept_prefix, says,
  starts_with_any, pass_words, more_words, done_words, force_close_words,
}

-- The intents of the candidates' menu.
abbrev pub is_pick : Intent → Bool
is_pick Intent.pick_a = true
is_pick Intent.pick_b = true
is_pick Intent.pick_c = true
is_pick _ = false

-- The intents that answer a finding.
abbrev pub is_answer : Intent → Bool
is_answer Intent.accept = true
is_answer Intent.reject = true
is_answer Intent.modify = true
is_answer Intent.question = true
is_answer _ = false

not_true : (b : Bool) → (b ≢ true) → b ≡ false
not_true true h = absurd (h refl)
not_true false h = refl

-- The text is, or begins with, one of the keywords that mean the same at every stage.
abbrev pub is_keyword : Text → Bool
is_keyword low =
    says low pass_words
    || says low more_words
    || says low done_words
    || one_of low force_close_words
    || starts_with_any low force_close_words

module _ (lower : Text → Text) where
  -- At the confirmation of the subject a reply never answers a finding.
  subject-not-answer : (raw low : Text) → is_answer (subject_intent lower raw low).0 ≡ false
  unfolding subject_intent
  subject-not-answer raw low = ground arith

  qa-not-pick : (raw low : Text) → is_pick (qa_intent lower raw low).0 ≡ false
  unfolding qa_intent
  qa-not-pick raw low = ground arith

  keyword-not-pick :
      (raw low : Text) (other : Intent × Text)
      → is_pick other.0 ≡ false
      → is_pick (keyword_intent lower raw low other).0 ≡ false
  unfolding keyword_intent
  keyword-not-pick raw low other h = ground arith

  keyword-not-answer :
      (raw low : Text) (other : Intent × Text)
      → is_answer other.0 ≡ false
      → is_answer (keyword_intent lower raw low other).0 ≡ false
  unfolding keyword_intent
  keyword-not-answer raw low other h = ground arith

  no_keyword :
      (raw low : Text) (other : Intent × Text)
      → is_keyword low ≡ false
      → (keyword_intent lower raw low other).0 ≡ other.0
  unfolding keyword_intent
  no_keyword raw low other h = ground arith

  begins_with_a :
      (raw low : Text)
      → starts_with low (txt "a") ≡ true
      → (qa_intent lower raw low).0 ≡ Intent.accept
  unfolding qa_intent accept_prefix
  begins_with_a raw low h = ground arith

  -- While the subject is being confirmed no reply is read as an answer to a finding (accept,
  -- reject, modify, question), and at any other stage no reply is read as a pick of a candidate.
  pub intent_by_stage :
      (text : Text)
      → (is_answer (parse_reply_intent lower text (txt "subject_confirmation")).0 ≡ false)
        × ((stage : Text)
            → stage ≢ txt "subject_confirmation"
            → is_pick (parse_reply_intent lower text stage).0 ≡ false)
  unfolding parse_reply_intent
  intent_by_stage text = (
    keyword-not-answer (strip text) (lower (strip text)) _ (
        rw ((text_eq_iff (txt "subject_confirmation") (txt "subject_confirmation")).1 refl)
          (subject-not-answer (strip text) (lower (strip text)))),
    λ stage h. keyword-not-pick (strip text) (lower (strip text)) _ (
        rw (not_true _ (λ e. h ((text_eq_iff stage (txt "subject_confirmation")).0 e)))
          (qa-not-pick (strip text) (lower (strip text)))),
  )

  -- Outside the confirmation of the subject, a reply without a keyword whose lowered text begins
  -- with the letter a is an acceptance, also where it ends in a question mark.
  pub accept_by_first_letter :
      (text stage : Text)
      → stage ≢ txt "subject_confirmation"
      → is_keyword (lower (strip text)) ≡ false
      → starts_with (lower (strip text)) (txt "a") ≡ true
      → (parse_reply_intent lower text stage).0 ≡ Intent.accept
  unfolding parse_reply_intent
  accept_by_first_letter text stage h k a =
      rw (not_true _ (λ e. h ((text_eq_iff stage (txt "subject_confirmation")).0 e))) (
        no_keyword (strip text) (lower (strip text)) _ k
        ∙ begins_with_a (strip text) (lower (strip text)) a)
