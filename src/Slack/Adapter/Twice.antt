-- ===== src/Slack/Adapter/Twice.antt =====
-- An event that is delivered twice.
use review_agent_v.Slack.Adapter.{
  second_look, Adapter, Python, dedup_key, seen_before, after_dedup, handle_message, admit,
}
use review_agent_v.Prelude.{
  Text, text_eq_iff, ℕ, ◌+◌, ◌<◌, Bool, true, false, [], ◌∷◌, length, ◌≡◌, refl, ap, ◌⊎◌, inl, inr,
  arith,
}
use review_agent_v.Slack.Dedup.{Dedup, is_fresh, seen}
use review_agent_v.Slack.Dedup.Again.{is_fresh-seen, seen-found, length-seen}
use review_agent_v.Slack.Event.{SlackEvent, get_or}
use review_agent_v.Slack.Adapter
use review_agent_v.Tasks.Queue.{TaskQueue}

false_not_true : (b : Bool) → b ≡ false → b ≡ true → ⊥
false_not_true b h k = ground arith

abbrev IsKnown : (key : Text) → (later : ℕ) → Bool × Dedup → Type 0
IsKnown key later (again, d) = (again ≡ true) ⊎ (is_fresh key later d.cache ≡ true)

IsKnown-second_look :
    (key event_id : Text) (now later : ℕ) (p : Bool × Dedup)
    → length p.1.cache < p.1.max
    → later < now + p.1.ttl
    → IsKnown key later p
    → IsKnown key later (second_look event_id now p)
IsKnown-second_look key event_id now later (true, d) room h known = inl refl
IsKnown-second_look key [] now later (false, d) room h known = known
IsKnown-second_look key (c ∷ event_id) now later (false, d) room h (inl again) =
    absurd (false_not_true false refl again)
IsKnown-second_look key (c ∷ event_id) now later (false, d) room h (inr fresh) =
    is_fresh-seen key (c ∷ event_id) now later d room h (inr fresh)

-- The key of an event is remembered, unless it was seen before.
IsKnown-seen_before :
    (e : SlackEvent) (r : Adapter.Reading) (later : ℕ) (d : Dedup)
    → length d.cache + 1 < d.max
    → later < r.first_now + d.ttl
    → later < r.second_now + d.ttl
    → IsKnown (dedup_key e) later (seen_before e r d)
unfolding seen_before
IsKnown-seen_before e r later d room h k =
    let key = dedup_key e in
    let (len, max_same, ttl_same) = length-seen key r.first_now d (omega arith) in
    IsKnown-second_look key (get_or [] e.event_id) r.second_now later (seen key r.first_now d)
      (rw max_same (omega arith)) (rw ttl_same k)
      (is_fresh-seen key key r.first_now later d (omega arith) h
        (inl ((text_eq_iff key key).1 refl)))

known_again :
    (e : SlackEvent) (r : Adapter.Reading) (d : Dedup)
    → is_fresh (dedup_key e) r.first_now d.cache ≡ true
    → seen_before e r d ≡ (true, d)
unfolding seen_before
known_again e r d h =
    ap (second_look (get_or [] e.event_id) r.second_now) (seen-found (dedup_key e) r.first_now d h)

ignored :
    (py : Python) (bot_user_id : Text) (e : SlackEvent) (r : Adapter.Reading) (a : Adapter)
    → is_fresh (dedup_key e) r.first_now a.dedup.cache ≡ true
    → handle_message py bot_user_id e r a ≡ a
unfolding handle_message
ignored py bot_user_id e r a h =
    ap (after_dedup py bot_user_id e r a.queue) (known_again e r a.dedup h)

after_known :
    (py : Python) (bot_user_id : Text) (e : SlackEvent) (r r' : Adapter.Reading) (q : TaskQueue)
    (p : Bool × Dedup)
    → p.0 ≡ false
    → IsKnown (dedup_key e) r'.first_now p
    → handle_message py bot_user_id e r' (after_dedup py bot_user_id e r q p)
      ≡ after_dedup py bot_user_id e r q p
after_known py bot_user_id e r r' q (true, d) n known = absurd (false_not_true true n refl)
after_known py bot_user_id e r r' q (false, d) n (inl again) = absurd (false_not_true false n again)
after_known py bot_user_id e r r' q (false, d) n (inr fresh) =
    ignored py bot_user_id e r' (record { dedup = d; queue = admit py bot_user_id e r q }) fresh

-- Where the cache has room for two more keys, a Slack event that was not seen before and comes
-- again within the time to live of the first delivery changes nothing the second time, neither
-- the cache nor the tasks.
pub handle_message_again :
    (py : Python) (bot_user_id : Text) (e : SlackEvent) (r r' : Adapter.Reading) (a : Adapter)
    → (seen_before e r a.dedup).0 ≡ false
    → length a.dedup.cache + 1 < a.dedup.max
    → r'.first_now < r.first_now + a.dedup.ttl
    → r'.first_now < r.second_now + a.dedup.ttl
    → handle_message py bot_user_id e r' (handle_message py bot_user_id e r a)
      ≡ handle_message py bot_user_id e r a
unfolding handle_message
handle_message_again py bot_user_id e r r' a new room h k =
    after_known py bot_user_id e r r' a.queue (seen_before e r a.dedup) new
      (IsKnown-seen_before e r r'.first_now a.dedup room h k)
