-- ===== src/Slack/Adapter/Sending.antt =====
-- What of a message is posted.
use review_agent_v.Prelude.{Text, ℕ, ◌≤◌, leb, true, length, take, ◌≡◌, refl, ap, arith}
use review_agent_v.Slack.Mrkdwn.{truncate_for_slack}
use review_agent_v.Slack.Adapter.{posted_text, reply_text}

le→leb : (a b : ℕ) → a ≤ b → leb a b ≡ true
le→leb a b h = ground arith

truncate_fits : (text : Text) (n : ℕ) → length text ≤ n → truncate_for_slack text n ≡ text
unfolding truncate_for_slack
truncate_fits text n h = rw (le→leb (length text) n h) refl

-- Where the converted text has at most 39000 characters, a reply in a thread posts all of it, but
-- a direct message only its first 100 characters.
pub posted_text_is_cut :
    (markdown_to_slack : Text → Text) (text : Text)
    → length (markdown_to_slack text) ≤ 39000
    → (posted_text markdown_to_slack text ≡ take 100 (markdown_to_slack text))
      × (reply_text markdown_to_slack text ≡ markdown_to_slack text)
unfolding posted_text reply_text
posted_text_is_cut markdown_to_slack text h =
    let e = truncate_fits (markdown_to_slack text) 39000 h in (ap (take 100) e, e)
