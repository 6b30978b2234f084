-- ===== src/Lark/Webhook/Stored.antt =====
-- Which requests become tasks, and a request that comes twice.
use review_agent_v.Prelude.{
  Text, txt, text_eq, text_eq_iff, ℕ, Bool, true, false, ◌||◌, Option, none, some, [], ◌∷◌, length,
  if◌then◌else◌, ◌≡◌, ◌≢◌, refl, sym, ap, ◌∙◌, inl, inr, arith, Bool-cases,
}
use review_agent_v.Prelude.Json.{Json, str, obj, arr, null, bool, num, Fields, get, is_text}
use review_agent_v.Core.Storage.Tables.{Storage, Event}
use review_agent_v.Core.Storage.Events.{
  event_seen, record_event, event_seen-record_event, event_seen-mark_event_handled,
}
use review_agent_v.Lark.Webhook
use review_agent_v.Lark.Webhook.{
  Hook, Request, Answer, Parsed, accepted, take_event, take_parsed, take_new, take_id, take_header,
  take_plain, take_decrypted, take_envelope, take_object, take_body, lark_webhook, event_row,
  parse_event, is_bad_token, is_bad_signature, is_empty_text, dict_or_empty, body_or_dict,
}
use review_agent_v.Core.Storage.Tasks.{insert_task}
use mathlib.Core.Path.{subst}
use review_agent_v.Lark.Message.{to_fields}
use review_agent_v.Lark.Post.{text_or}
use review_agent_v.Tasks.Queue.{TaskQueue, enqueue}

abbrev pub Handler : Type 0
Handler = TaskQueue → Answer × TaskQueue

-- What is accepted by the first is a duplicate for the second.
abbrev pub IsOnce : Handler → Handler → Type 0
IsOnce f g = (q : TaskQueue) → (f q).0 ≡ accepted → g (f q).1 ≡ (Webhook.dup, (f q).1)

crashed_not : Webhook.crashed ≢ accepted
crashed_not h = cc

no_id_not : Webhook.no_event_id ≢ accepted
no_id_not h = cc

invalid_not : Webhook.invalid_json ≢ accepted
invalid_not h = cc

IsOnce-if :
    (c : Bool) (b : Answer) (f g : Handler)
    → b ≢ accepted
    → IsOnce f g
    → IsOnce (λ q. if c then (b, q) else f q) λ q. if c then (b, q) else g q
IsOnce-if true b f g n k q h = absurd (n h)
IsOnce-if false b f g n k q h = k q h

or_true : (b : Bool) → (b || true) ≡ true
or_true b = ground arith

dup_not : Webhook.dup ≢ accepted
dup_not h = cc

seen_recorded :
    (event_id : Text) (e : Event) (s : Storage)
    → text_eq event_id e.event_id ≡ true
    → event_seen event_id (record_event e s) ≡ true
seen_recorded event_id e s h =
    event_seen-record_event event_id e s ∙ rw h (or_true (event_seen event_id s))

seen_enqueue :
    (event_id now kind : Text) (payload : Fields) (oid : Option Text) (q : TaskQueue)
    → event_seen event_id (enqueue now kind payload oid q).0.storage ≡ event_seen event_id q.storage
unfolding event_seen enqueue insert_task
seen_enqueue event_id now kind payload oid q = refl

take_old :
    (hook : Hook) (now : Text) (size : ℕ) (event_id : Text) (header d : Fields) (q : TaskQueue)
    → event_seen event_id q.storage ≡ true
    → take_new hook now size event_id header d q ≡ (Webhook.dup, q)
unfolding take_new
take_old hook now size event_id header d q h = rw h refl

take_fresh :
    (hook : Hook) (now : Text) (size : ℕ) (event_id : Text) (header d : Fields) (q : TaskQueue)
    → event_seen event_id q.storage ≡ false
    → take_new hook now size event_id header d q
      ≡ take_parsed hook now size event_id (parse_event hook event_id header d) q
unfolding take_new
take_fresh hook now size event_id header d q h = rw h refl

module _ (hook : Hook) (now now' : Text) (size : ℕ) where
  seen_after :
      (event_id : Text) (p : Parsed) (q : TaskQueue)
      → event_seen event_id (take_event hook now size event_id p q).1.storage ≡ true
  unfolding take_event
  seen_after event_id p q =
      let row = event_row hook now size event_id p in
      let recorded =
        seen_recorded event_id row q.storage ((text_eq_iff event_id event_id).1 refl) in
      let q1 = record q { storage = record_event row q.storage } in
      let payload = to_fields p.message in
      let put = enqueue now (txt "incoming_message") payload (some p.message.sender_open_id) q1 in
      elim (Bool-cases (text_eq p.event_type (txt "im.message.receive_v1"))) [
        | inl message ↦ rw message (
            event_seen-mark_event_handled event_id event_id put.0.storage
            ∙ seen_enqueue event_id now (txt "incoming_message") payload
                (some p.message.sender_open_id) q1
            ∙ recorded)
        | inr another ↦
            rw another (event_seen-mark_event_handled event_id event_id q1.storage ∙ recorded)
      ]

  parsed_once :
      (event_id : Text) (header d : Fields) (o : Option Parsed) (q : TaskQueue)
      → (take_parsed hook now size event_id o q).0 ≡ accepted
      → take_new hook now' size event_id header d (take_parsed hook now size event_id o q).1
        ≡ (Webhook.dup, (take_parsed hook now size event_id o q).1)
  unfolding take_new
  parsed_once event_id header d none q h = absurd (crashed_not h)
  parsed_once event_id header d (some p) q h = rw (seen_after event_id p q) refl

  IsOnce-take_new :
      (event_id : Text) (header d : Fields)
      → IsOnce
          (take_new hook now size event_id header d)
          (take_new hook now' size event_id header d)
  IsOnce-take_new event_id header d q h = elim (Bool-cases (event_seen event_id q.storage)) [
    | inl old ↦ absurd (
        dup_not (
          sym
            (ap (λ (r : Answer × TaskQueue). r.0) (take_old hook now size event_id header d q old))
          ∙ h))
    | inr new ↦
        let e = take_fresh hook now size event_id header d q new in
        subst (λ r. take_new hook now' size event_id header d r.1 ≡ (Webhook.dup, r.1)) (sym e)
          (parsed_once event_id header d (parse_event hook event_id header d) q
            (sym (ap (λ (r : Answer × TaskQueue). r.0) e) ∙ h))
  ]

  IsOnce-take_id :
      (event_id : Option Text) (header d : Fields)
      → IsOnce (take_id hook now size event_id header d) (take_id hook now' size event_id header d)
  IsOnce-take_id none header d q h = absurd (crashed_not h)
  IsOnce-take_id (some []) header d q h = absurd (no_id_not h)
  IsOnce-take_id (some (c ∷ event_id)) header d q h = IsOnce-take_new (c ∷ event_id) header d q h

  IsOnce-take_header :
      (header : Option Fields) (d : Fields)
      → IsOnce (take_header hook now size header d) (take_header hook now' size header d)
  IsOnce-take_header none d q h = absurd (crashed_not h)
  IsOnce-take_header (some header) d q h =
      IsOnce-take_id (text_or [] (get "event_id" header)) header d q h

  IsOnce-take_plain :
      (d : Fields) → IsOnce (take_plain hook now size d) (take_plain hook now' size d)
  unfolding take_plain
  IsOnce-take_plain d =
      let header = dict_or_empty (get "header" d) in
      let first = λ (q : TaskQueue). take_header hook now size header d q in
      let second = λ (q : TaskQueue). take_header hook now' size header d q in
      let bad = is_bad_token hook d in
      IsOnce-if (is_text (txt "url_verification") (get "type" d))
        (Webhook.challenge (get "challenge" d))
        (λ q. if bad then (Webhook.bad_token, q) else first q)
        (λ q. if bad then (Webhook.bad_token, q) else second q) (λ h. cc)
        (IsOnce-if bad Webhook.bad_token first second (λ h. cc) (IsOnce-take_header header d))

  IsOnce-take_decrypted :
      (d : Option Fields)
      → IsOnce (take_decrypted hook now size d) (take_decrypted hook now' size d)
  IsOnce-take_decrypted none q h = absurd (crashed_not h)
  IsOnce-take_decrypted (some d) q h = IsOnce-take_plain d q h

  IsOnce-take_envelope :
      (envelope : Option Json) (d : Fields)
      → IsOnce (take_envelope hook now size envelope d) (take_envelope hook now' size envelope d)
  IsOnce-take_envelope none d q h = IsOnce-take_plain d q h
  IsOnce-take_envelope (some envelope) d q h =
      let opened = hook.decrypt envelope hook.encrypt_key in
      IsOnce-if (is_empty_text hook.encrypt_key) Webhook.no_encrypt_key
        (take_decrypted hook now size opened) (take_decrypted hook now' size opened) (λ k. cc)
        (IsOnce-take_decrypted opened) q h

  IsOnce-take_object :
      (v : Option Json) → IsOnce (take_object hook now size v) (take_object hook now' size v)
  IsOnce-take_object none q h = absurd (crashed_not h)
  IsOnce-take_object (some (obj d)) q h = IsOnce-take_envelope (get "encrypt" d) d q h
  IsOnce-take_object (some null) q h = absurd (crashed_not h)
  IsOnce-take_object (some (bool b)) q h = absurd (crashed_not h)
  IsOnce-take_object (some (num n)) q h = absurd (crashed_not h)
  IsOnce-take_object (some (str s)) q h = absurd (crashed_not h)
  IsOnce-take_object (some (arr vs)) q h = absurd (crashed_not h)

module _ (hook : Hook) (now now' : Text) (r : Request) where
  IsOnce-take_body : (v : Option Json) → IsOnce (take_body hook now r v) (take_body hook now' r v)
  IsOnce-take_body none q h = absurd (invalid_not h)
  IsOnce-take_body (some v) q h =
      IsOnce-if (is_bad_signature hook r) Webhook.bad_signature
        (take_object hook now (length r.body) (some v))
        (take_object hook now' (length r.body) (some v)) (λ k. cc)
        (IsOnce-take_object hook now now' (length r.body) (some v)) q h

-- A request that was accepted is answered as a duplicate when it comes again at once, and then
-- nothing changes, neither the storage nor the queues.
pub lark_webhook-IsOnce :
    (hook : Hook) (r : Request) (now now' : Text) (q : TaskQueue)
    → (lark_webhook hook now r q).0 ≡ accepted
    → lark_webhook hook now' r (lark_webhook hook now r q).1
      ≡ (Webhook.dup, (lark_webhook hook now r q).1)
unfolding lark_webhook
lark_webhook-IsOnce hook r now now' =
    IsOnce-take_body hook now now' r (hook.loads_bytes (body_or_dict r.body))
