-- ===== src/Slack/Mrkdwn/Limits.antt =====
-- The length of a text that is cut, and the characters of one that is escaped.
use review_agent_v.Prelude.{
  Text, txt, ℕ, ◌-◌, ◌≤◌, min, leb, eqb, false, [], ◌∷◌, ◌++◌, length, take, any, any-append,
  length-append, length-take, ◌≡◌, refl, ◌⊎◌, inl, inr, arith, Bool-cases, leb→le,
}
use review_agent_v.Pipeline.Deliver.Targets.{replace_from}
use review_agent_v.Slack.Mrkdwn.{truncate_for_slack, slack_suffix, escape_slack_special}

min-le : (a b : ℕ) → min a b ≤ a
min-le a b = omega arith

length-cut :
    (text : Text) (n : ℕ)
    → length slack_suffix ≤ n
    → length (take (n - length slack_suffix) text ++ slack_suffix) ≤ n
length-cut text n h = omega (
  arith,
  length-append (take (n - length slack_suffix) text) slack_suffix,
  length-take (n - length slack_suffix) text,
)

-- A text that is cut for Slack has no more characters than the limit, where the limit has room for the suffix.
pub length-truncate_for_slack :
    (text : Text) (max_len : ℕ)
    → length slack_suffix ≤ max_len
    → length (truncate_for_slack text max_len) ≤ max_len
unfolding truncate_for_slack
length-truncate_for_slack text max_len h = elim (Bool-cases (leb (length text) max_len)) [
  | inl fits ↦ rw fits (leb→le (length text) max_len fits)
  | inr long ↦ rw long (length-cut text max_len h)
]

later_false : (c d : ℕ) (s : Text) → any (eqb c) (d ∷ s) ≡ false → any (eqb c) s ≡ false
later_false c d s h = ground arith

-- A character that the new text has not stays away, and is taken out where it is the old one.
any-replace_from :
    (c old : ℕ) (new s : Text)
    → any (eqb c) new ≡ false
    → ((c ≡ old) ⊎ (any (eqb c) s ≡ false))
    → any (eqb c) (replace_from (old ∷ []) new 0 s) ≡ false
unfolding replace_from
any-replace_from c old new [] n h = refl
any-replace_from c old new (d ∷ s) n (inl same) =
    let rest = replace_from (old ∷ []) new 0 s in
    ground (arith, n, same, any-replace_from c old new s n (inl same), any-append (eqb c) new rest)
any-replace_from c old new (d ∷ s) n (inr away) =
    let rest = replace_from (old ∷ []) new 0 s in
    ground (
      arith,
      n,
      away,
      any-replace_from c old new s n (inr (later_false c d s away)),
      any-append (eqb c) new rest,
    )

-- An escaped text has no `<` and no `>`.
pub escape_slack_special_has_no_angle :
    (text : Text)
    → (any (eqb 60) (escape_slack_special text) ≡ false)
      × (any (eqb 62) (escape_slack_special text) ≡ false)
unfolding escape_slack_special
escape_slack_special_has_no_angle text =
    let amp = replace_from (txt "&") (txt "&amp;") 0 text in
    let lt = replace_from (txt "<") (txt "&lt;") 0 amp in
    (
      any-replace_from 60 62 (txt "&gt;") lt refl
          (inr (any-replace_from 60 60 (txt "&lt;") amp refl (inl refl))),
      any-replace_from 62 62 (txt "&gt;") lt refl (inl refl),
    )
