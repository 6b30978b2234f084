-- ===== src/Pipeline/Intents.antt =====
-- review_agent/pipeline/_intents.py: what a reply means. `lower` is `str.lower`.
pub mod ByStage
use review_agent_v.Prelude.{
  Text, txt, text_eq, ℕ, Bool, true, false, not, ◌&&◌, ◌||◌, List, [], ◌∷◌, any, length, drop,
  strip, lstrip_if, starts_with, ends_with, is_space, one_of, eqb, if◌then◌else◌,
}
use review_agent_v.Core.Enums.{Intent}

unfoldable pub pass_words : List Text
pass_words = txt "p" ∷ txt "pass" ∷ txt "skip" ∷ txt "next" ∷ txt "跳过" ∷ txt "下一条" ∷ txt "下一个" ∷ []

unfoldable pub more_words : List Text
more_words = txt "more" ∷ txt "继续" ∷ txt "下一批" ∷ txt "deferred" ∷ []

unfoldable pub done_words : List Text
done_words = txt "done" ∷ txt "close" ∷ txt "结束" ∷ txt "可以了" ∷ txt "ready" ∷ []

unfoldable pub force_close_words : List Text
force_close_words =
    txt "forceclose" ∷ txt "强制关" ∷ txt "必须 close" ∷ txt "force-close" ∷ txt "force close" ∷ []

unfoldable pub accept_prefix : List Text
accept_prefix = txt "a" ∷ txt "accept" ∷ txt "好" ∷ txt "ok" ∷ txt "同意" ∷ []

unfoldable pub reject_prefix : List Text
reject_prefix = txt "b" ∷ txt "reject" ∷ txt "不同意" ∷ txt "不行" ∷ txt "no" ∷ []

unfoldable pub modify_prefix : List Text
modify_prefix = txt "c" ∷ txt "modify" ∷ txt "改成" ∷ txt "我改成" ∷ []

-- A character of `[\s,，:：。.]`.
unfoldable pub is_separator : ℕ → Bool
unfolding is_space
is_separator c = is_space c || any (eqb c) (txt ",，:：。.")

-- re.split(r"[\s,，:：。.]+", low, maxsplit=1)[0]
unfoldable pub first_token : Text → Text
unfolding is_separator
first_token [] = []
first_token (c ∷ s) = if is_separator c then [] else c ∷ first_token s

-- low.startswith(("…", "…"))
abbrev pub starts_with_any : Text → List Text → Bool
starts_with_any s prefixes = any (starts_with s) prefixes

-- low in words or first_token in words
abbrev pub says : Text → List Text → Bool
says low words = one_of low words || one_of (first_token low) words

module _ (lower : Text → Text) where
  unfoldable pub strip_prefix : Text → Text → Text
  strip_prefix raw prefix =
      let s = strip raw in
      let rest = (if starts_with (lower s) prefix then drop (length prefix) s else s) in
      strip (lstrip_if (λ c. any (eqb c) (txt " :,.，：。")) rest)

  -- The part for `stage == "subject_confirmation"`.
  unfoldable pub subject_intent : Text → Text → Intent × Text
  subject_intent raw low =
      let token = first_token low in
      if text_eq token (txt "a")
      then (Intent.pick_a, [])
      else if text_eq token (txt "b")
      then (Intent.pick_b, [])
      else if text_eq token (txt "c")
      then (Intent.pick_c, [])
      else if starts_with low (txt "custom") || starts_with low (txt "其他")
      then (Intent.custom, strip_prefix raw token)
      else (Intent.custom, raw)

  -- The part for every other stage.
  unfoldable pub qa_intent : Text → Text → Intent × Text
  qa_intent raw low =
      let token = first_token low in
      if text_eq token (txt "a") || starts_with_any low accept_prefix
      then (Intent.accept, strip_prefix raw token)
      else if text_eq token (txt "b") || starts_with_any low reject_prefix
      then (Intent.reject, strip_prefix raw token)
      else if text_eq token (txt "c") || starts_with_any low modify_prefix
      then (Intent.modify, strip_prefix raw token)
      else if starts_with low (txt "?") || ends_with low (txt "?") || starts_with low (txt "为什么")
      then (Intent.question, raw)
      else (Intent.custom, raw)

  -- The keywords that mean the same at every stage, before the parts above.
  unfoldable pub keyword_intent : Text → Text → Intent × Text → Intent × Text
  keyword_intent raw low other =
      if says low pass_words
      then (Intent.pass, strip_prefix raw (first_token low))
      else if says low more_words
      then (Intent.more, [])
      else if says low done_words
      then (Intent.done, [])
      else if one_of low force_close_words || starts_with_any low force_close_words
      then (Intent.force_close, raw)
      else other

  unfoldable pub parse_reply_intent : (text stage : Text) → Intent × Text
  parse_reply_intent text stage =
      let raw = strip text in
      let low = lower raw in
      keyword_intent raw low (
        if text_eq stage (txt "subject_confirmation")
        then subject_intent raw low
        else qa_intent raw low)

-- What a run of the parser computes with.
unfoldable pub parser : Unit {0}
unfolding parse_reply_intent keyword_intent subject_intent qa_intent strip_prefix first_token strip
    lstrip_if starts_with ends_with one_of text_eq pass_words more_words done_words
    force_close_words accept_prefix reject_prefix modify_prefix
parser = tt
