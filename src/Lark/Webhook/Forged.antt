-- ===== src/Lark/Webhook/Forged.antt =====
-- A request without a signature.
use review_agent_v.Lark.Webhook.{
  verify_v2_signature, text_or, is_empty_text, take_id, Hook, Request, lark_webhook, body_or_dict,
  take_plain, is_bad_signature, is_bad_token, take_header, dict_or_empty, take_new,
}
use review_agent_v.Prelude.{
  Text, text_eq_iff, ℕ, Bool, true, false, not, ◌&&◌, Option, none, some, [], ◌∷◌, length, ◌≡◌,
  refl, sym, ◌∙◌, arith,
}
use review_agent_v.Prelude.Json.{obj, Fields, get}
use review_agent_v.Tasks.Queue.{TaskQueue}

-- The same router without any secrets.
abbrev pub without_secrets : Hook → Hook
without_secrets hook = record hook { encrypt_key = []; verification_token = [] }

and_not : (a b c : Bool) → b ≡ true → (a && not b && c) ≡ false
and_not a b c h = ground arith

unsigned : (hook : Hook) (r : Request) → r.signature ≡ [] → is_bad_signature hook r ≡ false
unfolding is_bad_signature
unsigned hook r s =
    and_not (not (is_empty_text hook.encrypt_key)) (is_empty_text r.signature)
      (not (verify_v2_signature hook r)) ((text_eq_iff r.signature []).1 s)

untokened : (hook : Hook) (d : Fields) → get "token" d ≡ none → is_bad_token hook d ≡ false
unfolding is_bad_token
untokened hook d t = rw (is_bad_token, t) refl

take_new_same :
    (hook : Hook) (now : Text) (size : ℕ) (event_id : Text) (header d : Fields) (q : TaskQueue)
    → take_new hook now size event_id header d q
      ≡ take_new (without_secrets hook) now size event_id header d q
unfolding take_new
take_new_same hook now size event_id header d q = refl

take_id_same :
    (hook : Hook) (now : Text) (size : ℕ) (event_id : Option Text) (header d : Fields)
    (q : TaskQueue)
    → take_id hook now size event_id header d q
      ≡ take_id (without_secrets hook) now size event_id header d q
take_id_same hook now size none header d q = refl
take_id_same hook now size (some []) header d q = refl
take_id_same hook now size (some (c ∷ event_id)) header d q =
    take_new_same hook now size (c ∷ event_id) header d q

take_header_same :
    (hook : Hook) (now : Text) (size : ℕ) (header : Option Fields) (d : Fields) (q : TaskQueue)
    → take_header hook now size header d q ≡ take_header (without_secrets hook) now size header d q
take_header_same hook now size none d q = refl
take_header_same hook now size (some header) d q =
    take_id_same hook now size (text_or [] (get "event_id" header)) header d q

take_plain_same :
    (hook : Hook) (now : Text) (size : ℕ) (d : Fields) (q : TaskQueue)
    → get "token" d ≡ none
    → take_plain hook now size d q ≡ take_plain (without_secrets hook) now size d q
unfolding take_plain
take_plain_same hook now size d q t =
    rw
      (
        untokened hook d t,
        untokened (without_secrets hook) d t,
        take_header_same hook now size (dict_or_empty (get "header" d)) d q,
      )
      refl

opened :
    (hook : Hook) (now : Text) (r : Request) (q : TaskQueue) (d : Fields)
    → r.signature ≡ []
    → hook.loads_bytes (body_or_dict r.body) ≡ some (obj d)
    → get "encrypt" d ≡ none
    → lark_webhook hook now r q ≡ take_plain hook now (length r.body) d q
unfolding lark_webhook
opened hook now r q d s l e = rw (l, unsigned hook r s, e) refl

-- A request without a signature, whose body is a dict with neither an envelope nor a token, has
-- the same answer and the same effects as where the router has neither an encrypt key nor a
-- verification token.
pub unsigned_needs_no_secret :
    (hook : Hook) (now : Text) (r : Request) (q : TaskQueue) (d : Fields)
    → r.signature ≡ []
    → hook.loads_bytes (body_or_dict r.body) ≡ some (obj d)
    → get "encrypt" d ≡ none
    → get "token" d ≡ none
    → lark_webhook hook now r q ≡ lark_webhook (without_secrets hook) now r q
unsigned_needs_no_secret hook now r q d s l e t =
    opened hook now r q d s l e
    ∙ take_plain_same hook now (length r.body) d q t
    ∙ sym (opened (without_secrets hook) now r q d s l e)
