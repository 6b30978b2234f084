-- ===== src/Slack/Event.antt =====
-- review_agent/slack/types.py: what is read from an event. The fields of an event have the types that
-- Slack gives them, and `none` where they are missing.
use review_agent_v.Prelude.{
  Text, txt, text_eq, ℕ, zero, suc, ◌-◌, eqb, Bool, true, false, not, ◌&&◌, ◌||◌, Option, none,
  some, List, [], ◌∷◌, ◌++◌, length, if◌then◌else◌, starts_with, contains, strip,
}
use review_agent_v.Pipeline.Deliver.Targets.{replace_from}
use review_agent_v.Pipeline.Ingest.Urls.{span, one_prefix}

pub record SlackFile : Type 0 where
  pub mimetype : Option Text
  pub url_private_download : Option Text
  pub url_private : Option Text
  pub name : Option Text

pub record SlackEvent : Type 0 where
  pub event_id : Option Text
  pub bot_id : Option Text
  pub subtype : Option Text
  pub user : Option Text
  pub channel : Option Text
  pub channel_type : Option Text
  pub team : Option Text
  pub team_id : Option Text
  pub thread_ts : Option Text
  pub ts : Option Text
  pub text : Option Text
  pub files : List SlackFile

pub record SlackEventContext : Type 0 where
  pub user_id : Text
  pub channel_id : Text
  pub team_id : Text
  pub thread_ts : Text
  pub msg_ts : Text
  pub text : Text
  pub is_dm : Bool
  pub is_mentioned : Bool
  pub msg_type : Text
  pub file_url : Text
  pub file_name : Text
  pub file_mimetype : Text
  pub event_id : Text

-- event.get(key, default)
abbrev pub get_or : Text → Option Text → Text
get_or default none = default
get_or default (some t) = t

infixl 5 ◌>>=◌
abbrev ◌>>=◌ : {A B : Type 0} → Option A → (A → Option B) → Option B
none >>= f = none
some a >>= f = f a

-- A pattern at one place: how many characters it matches there, and what stands for them.
abbrev Rule : Type 0
Rule = Text → Option (ℕ × Text)

-- re.sub, after `skip` characters that belong to the last match
unfoldable pub sub_all : Rule → (skip : ℕ) → Text → Text
sub_all m skip [] = []
sub_all m (suc skip) (c ∷ s) = sub_all m skip s
sub_all m zero (c ∷ s) = elim (m (c ∷ s)) [
  | none ↦ c ∷ sub_all m zero s
  | some (n, new) ↦ new ++ sub_all m (n - 1) s
]

-- The longest beginning of such characters, which is not empty and has the end behind it.
abbrev run_until : (ℕ → Bool) → (end : Text) → Text → Option (Text × Text)
run_until p end s = do
  let (taken, rest) = span p s
  (found, after) ← one_prefix (end ∷ []) rest
  elim taken [ [] ↦ none | c ∷ taken' ↦ some (c ∷ taken', after) ]

abbrev not_close : ℕ → Bool
not_close c = not (eqb c 62)

abbrev not_bar_close : ℕ → Bool
not_bar_close c = not (eqb c 124 || eqb c 62)

-- How much of the text is before the rest.
abbrev used : (s rest : Text) → ℕ
used s rest = length s - length rest

module _ (is_word : ℕ → Bool) where
  -- <#C\w+\|([^>]+)>
  abbrev channel_rule : Rule
  channel_rule s = do
    (start, s1) ← one_prefix (txt "<#C" ∷ []) s
    (id, s2) ← run_until is_word (txt "|") s1
    (name, s3) ← run_until not_close (txt ">") s2
    some (used s s3, txt "#" ++ name)

  -- <@(\w+)>
  abbrev user_rule : Rule
  user_rule s = do
    (start, s1) ← one_prefix (txt "<@" ∷ []) s
    (id, s2) ← run_until is_word (txt ">") s1
    some (used s s2, txt "@" ++ id)

-- <mailto:([^|>]+)\|[^>]+>
abbrev mail_rule : Rule
mail_rule s = do
  (start, s1) ← one_prefix (txt "<mailto:" ∷ []) s
  (address, s2) ← run_until not_bar_close (txt "|") s1
  (label, s3) ← run_until not_close (txt ">") s2
  some (used s s3, address)

-- <mailto:([^>]+)>
abbrev bare_mail_rule : Rule
bare_mail_rule s = do
  (start, s1) ← one_prefix (txt "<mailto:" ∷ []) s
  (address, s2) ← run_until not_close (txt ">") s1
  some (used s s2, address)

-- <([^|>]+)\|([^>]+)>
abbrev link_rule : Rule
link_rule s = do
  (start, s1) ← one_prefix (txt "<" ∷ []) s
  (url, s2) ← run_until not_bar_close (txt "|") s1
  (label, s3) ← run_until not_close (txt ">") s2
  some (used s s3, label)

-- <([^>]+)>
abbrev bare_rule : Rule
bare_rule s = do
  (start, s1) ← one_prefix (txt "<" ∷ []) s
  (url, s2) ← run_until not_close (txt ">") s1
  some (used s s2, url)

-- _clean_slack_text; `is_word` is `\w`.
unfoldable pub clean_slack_text : (is_word : ℕ → Bool) → Text → Text
unfolding sub_all span one_prefix replace_from
clean_slack_text is_word text =
    let names = sub_all (user_rule is_word) 0 (sub_all (channel_rule is_word) 0 text) in
    let mentions = replace_from (txt "<!here>") (txt "@here") 0 (
      replace_from (txt "<!everyone>") (txt "@everyone") 0
        (replace_from (txt "<!channel>") (txt "@channel") 0 names)) in
    let mails = sub_all bare_mail_rule 0 (sub_all mail_rule 0 mentions) in
    sub_all bare_rule 0 (sub_all link_rule 0 mails)

-- The type of the channel, or what its identifier tells.
unfoldable pub channel_type_of : SlackEvent → Text
unfolding starts_with
channel_type_of e =
    let channel_id = get_or [] e.channel in
    let given = get_or [] e.channel_type in
    if not (text_eq given [])
    then given
    else if starts_with channel_id (txt "D")
    then txt "im"
    else if starts_with channel_id (txt "C")
    then txt "channel"
    else []

unfoldable pub is_dm : SlackEvent → Bool
unfolding channel_type_of text_eq
is_dm e = text_eq (channel_type_of e) (txt "im")

-- f"<@{bot_user_id}>"
abbrev pub mention : Text → Text
mention bot_user_id = txt "<@" ++ bot_user_id ++ txt ">"

abbrev file_type : Text → Text
file_type mimetype =
    if starts_with mimetype (txt "image/")
    then txt "image"
    else if starts_with mimetype (txt "audio/")
    then txt "audio"
    else txt "file"

-- The message's type, and the link, name and type of its first file.
unfoldable pub file_info : List SlackFile → Text × Text × Text × Text
unfolding starts_with
file_info [] = (txt "text", [], [], [])
file_info (f ∷ files) =
    let mimetype = get_or [] f.mimetype in
    (
      file_type mimetype,
      get_or (get_or [] f.url_private) f.url_private_download,
      get_or [] f.name,
      mimetype,
    )

abbrev or_text : Text → Text → Text
or_text [] b = b
or_text (c ∷ a) b = c ∷ a

-- The text without the mention of the bot, where it is there and the bot is known.
abbrev without_mention : (bot_user_id text : Text) → Bool × Text
without_mention bot_user_id text =
    if not (text_eq bot_user_id []) && contains text (mention bot_user_id)
    then (true, strip (replace_from (mention bot_user_id) [] 0 text))
    else (false, text)

-- extract_context
unfoldable pub extract_context :
    (is_word : ℕ → Bool) → (bot_user_id : Text) → SlackEvent → SlackEventContext
unfolding clean_slack_text is_dm file_info contains strip replace_from text_eq
extract_context is_word bot_user_id e =
    let channel_id = get_or [] e.channel in
    let msg_ts = get_or [] e.ts in
    let (mentioned, text) = without_mention bot_user_id (get_or [] e.text) in
    let (msg_type, file_url, file_name, file_mimetype) = file_info e.files in
    let thread_ts = get_or [] e.thread_ts in
    record {
      user_id = get_or [] e.user;
      channel_id = channel_id;
      team_id = get_or (get_or [] e.team_id) e.team;
      thread_ts = if is_dm e then thread_ts else or_text thread_ts msg_ts;
      msg_ts = msg_ts;
      text = clean_slack_text is_word text;
      is_dm = is_dm e;
      is_mentioned = mentioned;
      msg_type = msg_type;
      file_url = file_url;
      file_name = file_name;
      file_mimetype = file_mimetype;
      event_id = channel_id ++ txt ":" ++ msg_ts;
    }
