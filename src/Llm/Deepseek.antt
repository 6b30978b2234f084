-- ===== src/Llm/Deepseek.antt =====
-- `DeepSeekClient.chat` of review_agent/llm/deepseek.py: the loop of attempts, and what is read from an answer.
pub mod Attempts
use review_agent_v.Prelude.{
  Text, txt, text_eq, text_eq_iff, text_ne, String, ℕ, zero, suc, ◌+◌, ◌-◌, ◌*◌, ◌/◌, ◌%◌, ◌^◌, ◌≤◌,
  ◌<◌, min, ltb, leb, eqb, Bool, true, false, not, ◌&&◌, ◌||◌, Option, none, some, is_none, List,
  [], ◌∷◌, ◌++◌, length, take, drop, get_elem?, map, filter, any, all, find?, count, All,
  All-append, any-append, length-append, length-take, length-map, take-append-drop, take_all,
  drop_all, length-drop, if◌then◌else◌, is_space, starts_with, ends_with, contains, find_from,
  one_of, strip, lstrip, rstrip, rstrip_if, lstrip_if, ◌≡◌, ◌≢◌, refl, sym, ap, ◌∙◌, ◌⊎◌, ◌↔◌, inl,
  inr, arith, Bool-cases, Option-cases, ltb→lt, lt→ltb, leb→le, eqb_iff,
}
use review_agent_v.Prelude.Json.{
  Json, str, arr, obj, null, bool, num, Items, nil, cons, Fields, get, truthy,
}

-- An answer: none, by an httpx.HTTPError, or a status and what `resp.json()` gives.
pub data Response : Type 0 where
  http_error : Response
  answer : (status : ℕ) → (body : Option Json) → Response

-- How one attempt ends: with the content; with an exception of the kinds that the loop catches; with
-- another one.
pub data Attempt : Type 0 where
  content : Text → Attempt
  caught uncaught : Attempt

-- How `chat` ends, for the field `content` of an LLMResponse.
pub data Chat : Type 0 where
  returned : Text → Chat
  terminal_failure other_exception : Chat

abbrev text_or_empty : Option Json → Attempt
text_or_empty none = content []
text_or_empty (some (str t)) = content t
text_or_empty (some v) = if truthy v then uncaught else content []

-- The value of a key, {} where it is not there, has a `get`.
abbrev has_get : Option Json → Bool
has_get none = true
has_get (some (obj d)) = true
has_get (some v) = false

-- usage = env.get("usage", {}), and usage.get("completion_tokens_details", {}).get(…)
unfoldable pub is_usage : Option Json → Bool
unfolding get
is_usage none = true
is_usage (some (obj usage)) = has_get (get "completion_tokens_details" usage)
is_usage (some v) = false

-- env["choices"][0]["message"], then msg.get("content", "") or "", and the numbers of the usage: KeyError is
-- caught; IndexError, TypeError and AttributeError are not. A content that is not false and no text counts
-- as uncaught.
abbrev of_message : (usage : Bool) → Option Json → Attempt
of_message usage none = caught
of_message true (some (obj message)) = text_or_empty (get "content" message)
of_message false (some (obj message)) = uncaught
of_message usage (some v) = uncaught

abbrev of_choice : (usage : Bool) → Json → Attempt
of_choice usage (obj choice) = of_message usage (get "message" choice)
of_choice usage v = uncaught

abbrev of_choices : (usage : Bool) → Option Json → Attempt
of_choices usage none = caught
of_choices usage (some (arr nil)) = uncaught
of_choices usage (some (arr (cons choice choices))) = of_choice usage choice
of_choices usage (some v) = uncaught

abbrev of_body : Option Json → Attempt
of_body none = caught
of_body (some (obj env)) = of_choices (is_usage (get "usage" env)) (get "choices" env)
of_body (some v) = uncaught

-- The body of `try`: a status for a retry, or any other than of success, is an HTTPStatusError.
unfoldable pub try_once : Response → Attempt
unfolding get truthy is_usage
try_once http_error = caught
try_once (answer status body) = if leb 200 status && ltb status 300 then of_body body else caught

module _ (response : ℕ → Response) where
  abbrev pub settle_attempt : (n : ℕ) → Chat × ℕ → Attempt → Chat × ℕ
  settle_attempt n rest (content t) = (returned t, suc n)
  settle_attempt n rest caught = rest
  settle_attempt n rest uncaught = (other_exception, suc n)

  -- The loop from attempt `n` on, with so many left, and how many requests there were in all.
  unfoldable pub chat_attempts : (left n : ℕ) → Chat × ℕ
  unfolding try_once
  chat_attempts zero n = (terminal_failure, n)
  chat_attempts (suc left) n =
      let rest = chat_attempts left (suc n) in settle_attempt n rest (try_once (response n))

  -- chat
  unfoldable pub chat_with_retries : (max_retries : ℕ) → Chat × ℕ
  unfolding chat_attempts
  chat_with_retries max_retries = chat_attempts max_retries 0
