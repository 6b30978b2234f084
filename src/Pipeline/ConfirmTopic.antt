-- ===== src/Pipeline/ConfirmTopic.antt =====
-- review_agent/pipeline/confirm_topic.py: the reply with which a requester picks or writes the subject.
pub mod Label
pub mod Resolve
use review_agent_v.Prelude.{
  Text, txt, ℕ, zero, suc, ltb, eqb, Bool, true, false, Option, none, some, List, [], ◌∷◌, ◌++◌,
  length, take, strip, find_from, if◌then◌else◌,
}
use review_agent_v.Prelude.Json.{
  Json, null, bool, num, str, arr, nil, obj, items, Fields, end, field, get, get_or, truthy,
}
use review_agent_v.Core.Enums.{Intent, Stage, intent_value}
use review_agent_v.Core.Models.{Session}
use review_agent_v.Core.Storage.Tables.{Storage}
use review_agent_v.Core.Storage.Sessions.{on_dir, update_session}
use review_agent_v.Core.Storage.Findings.{log_conversation}
use review_agent_v.Util.Md.{shorten}
use review_agent_v.Pipeline.Intents.{parse_reply_intent}

abbrev pub separators : List Text
separators = (10 ∷ []) ∷ txt "。" ∷ txt "？" ∷ txt "?" ∷ txt "!" ∷ txt "！" ∷ []

abbrev cut_at : Text → Option ℕ → Text → Text
cut_at s none rest = rest
cut_at s (some idx) rest = if ltb idx 60 then take idx s else rest

-- The loop over the separators: the text before the first of them that is found early enough.
unfoldable pub cut : List Text → Text → Text
unfolding find_from
cut [] s = s
cut (sep ∷ seps) s = cut_at s (find_from 0 s sep) (cut seps s)

-- s or "(untitled)"
abbrev pub or_untitled : Text → Text
or_untitled [] = txt "(untitled)"
or_untitled (c ∷ s) = c ∷ s

-- `if len(s) > max_chars: s = s[: max_chars - 1] + "…"`, as at the end of `line_range_snippet`
unfoldable pub clip : Text → Text
unfolding shorten
clip s = shorten 60 s

-- _trim_subject, with its default of 60 characters
unfoldable pub trim_subject : Text → Text
unfolding cut strip clip
trim_subject text = or_untitled (strip (clip (cut separators (strip text))))

-- The value of `chosen`, or an exception: TypeError, KeyError, or AttributeError in `_trim_subject`.
pub data Pick : Type 0 where
  crash nothing : Pick
  picked : Text → Pick

abbrev chosen_of : Json → Pick
chosen_of (str []) = nothing
chosen_of (str (c ∷ s)) = picked (c ∷ s)
chosen_of v = if truthy v then crash else nothing

abbrev topic_of : Option Json → Pick
topic_of (some (obj d)) = elim (get "topic" d) [ none ↦ crash | some v ↦ chosen_of v ]
topic_of _ = crash

abbrev nth : ℕ → List Json → Option Json
nth n [] = none
nth zero (v ∷ vs) = some v
nth (suc n) (v ∷ vs) = nth n vs

-- candidates[n]["topic"]
unfoldable pub topic_at : ℕ → Json → Pick
unfolding get truthy
topic_at n (arr xs) = topic_of (nth n (items xs))
topic_at n _ = crash

abbrev count_fields : Fields → ℕ
count_fields end = 0
count_fields (field k v d) = suc (count_fields d)

-- len(candidates); `none` is a TypeError.
abbrev len_of : Json → Option ℕ
len_of (str s) = some (length s)
len_of (arr xs) = some (length (items xs))
len_of (obj d) = some (count_fields d)
len_of _ = none

abbrev pick_beyond : ℕ → Json → Pick
pick_beyond n candidates = elim (len_of candidates) [
  | none ↦ crash
  | some k ↦ if ltb n k then topic_at n candidates else nothing
]

-- The chain of `if` and `elif` on the intent.
unfoldable pub pick : Intent → Text → Json → Pick
unfolding topic_at truthy
pick Intent.pick_a remainder candidates =
    if truthy candidates then topic_at 0 candidates else nothing
pick Intent.pick_b remainder candidates = pick_beyond 1 candidates
pick Intent.pick_c remainder candidates = pick_beyond 2 candidates
pick Intent.custom [] candidates = nothing
pick Intent.custom (c ∷ s) candidates = picked (c ∷ s)
pick _ remainder candidates = nothing

-- The columns that are set.
abbrev pub with_subject : Text → Session → Session
with_subject label r = record r { subject = some label; stage = Stage.scanning }

-- The part under `if chosen`; `none` is the exception.
unfoldable pub choose :
    Intent
    → (logged reply : Text) → Session
    → Pick
    → Storage
    → Option (Intent × Option Text) × Storage
unfolding trim_subject update_session on_dir log_conversation intent_value
choose intent logged reply session crash s = (none, s)
choose intent logged reply session nothing s = (some (intent, none), s)
choose intent logged reply session (picked t) s =
    let label = trim_subject t in
    (
      some (intent, some label),
      on_dir session.id
          (log_conversation logged (txt "requester") reply (some (intent_value intent)))
          (update_session session.id (with_subject label) s),
    )

-- handle_reply; `logged` is the time that the log of the conversation reads.
unfoldable pub subject_reply :
    (Text → Text)
    → (logged reply : Text) → Session
    → Storage
    → Option (Intent × Option Text) × Storage
unfolding get_or
subject_reply lower logged reply session s =
    let (intent, remainder) = parse_reply_intent lower reply (txt "subject_confirmation") in
    choose intent logged reply session
      (pick intent remainder (get_or "topic_candidates" (arr nil) session.meta)) s
