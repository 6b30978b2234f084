-- ===== src/Slack/Mrkdwn.antt =====
-- `truncate_for_slack` and `escape_slack_special` of review_agent/slack/mrkdwn.py.
pub mod Limits
use review_agent_v.Prelude.{
  Text, txt, text_eq, text_eq_iff, text_ne, String, ℕ, zero, suc, ◌+◌, ◌-◌, ◌*◌, ◌/◌, ◌%◌, ◌^◌, ◌≤◌,
  ◌<◌, min, ltb, leb, eqb, Bool, true, false, not, ◌&&◌, ◌||◌, Option, none, some, is_none, List,
  [], ◌∷◌, ◌++◌, length, take, drop, get_elem?, map, filter, any, all, find?, count, All,
  All-append, any-append, length-append, length-take, length-map, take-append-drop, take_all,
  drop_all, length-drop, if◌then◌else◌, is_space, starts_with, ends_with, contains, find_from,
  one_of, strip, lstrip, rstrip, rstrip_if, lstrip_if, ◌≡◌, ◌≢◌, refl, sym, ap, ◌∙◌, ◌⊎◌, ◌↔◌, inl,
  inr, arith, Bool-cases, Option-cases, ltb→lt, lt→ltb, leb→le, eqb_iff,
}
use review_agent_v.Pipeline.Deliver.Targets.{replace_from}

-- "\n…(truncated for Slack length limit)"
abbrev pub slack_suffix : Text
slack_suffix = 10 ∷ txt "…(truncated for Slack length limit)"

-- A limit below the length of the suffix cuts from the end of the text: there the model, whose
-- subtraction stops at 0, leaves less.
unfoldable pub truncate_for_slack : (text : Text) → (max_len : ℕ) → Text
truncate_for_slack text max_len =
    if leb (length text) max_len
    then text
    else take (max_len - length slack_suffix) text ++ slack_suffix

unfoldable pub escape_slack_special : Text → Text
unfolding replace_from
escape_slack_special text =
    replace_from (txt ">") (txt "&gt;") 0
      (replace_from (txt "<") (txt "&lt;") 0 (replace_from (txt "&") (txt "&amp;") 0 text))
