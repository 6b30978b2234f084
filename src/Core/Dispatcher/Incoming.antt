-- ===== src/Core/Dispatcher/Incoming.antt =====
-- review_agent/core/dispatcher.py: `dispatch` and `_handle_incoming`, from a task to the part that it calls.
pub mod Caught
use review_agent_v.Prelude.{
  Text, txt, text_eq, text_eq_iff, text_ne, String, ℕ, zero, suc, ◌+◌, ◌-◌, ◌*◌, ◌/◌, ◌%◌, ◌^◌, ◌≤◌,
  ◌<◌, min, ltb, leb, eqb, Bool, true, false, not, ◌&&◌, ◌||◌, Option, none, some, is_none, List,
  [], ◌∷◌, ◌++◌, length, take, drop, get_elem?, map, filter, any, all, find?, count, All,
  All-append, any-append, length-append, length-take, length-map, take-append-drop, take_all,
  drop_all, length-drop, if◌then◌else◌, is_space, starts_with, ends_with, contains, find_from,
  one_of, strip, lstrip, rstrip, rstrip_if, lstrip_if, ◌≡◌, ◌≢◌, refl, sym, ap, ◌∙◌, ◌⊎◌, ◌↔◌, inl,
  inr, arith, Bool-cases, Option-cases, ltb→lt, lt→ltb, leb→le, eqb_iff,
}
use review_agent_v.Prelude.Json.{Json, str, Fields, get, truthy}
use review_agent_v.Core.Enums.{Role}
use review_agent_v.Core.Models.{Session, User, has_role}
use review_agent_v.Core.Storage.Sessions.{get_active_session_for}
use review_agent_v.Core.Storage.Users.{get_user}
use review_agent_v.Core.Dispatcher.World
use review_agent_v.Core.Dispatcher.World.{Act, ◌>>=◌, ◌>>◌, pure, raise, need, gets, safe_dm}
use review_agent_v.Core.Dispatcher.Stages.{do_merge, do_final_gate, do_build_and_deliver}
use review_agent_v.Core.Dispatcher.Scanning.{do_scan}
use review_agent_v.Core.Dispatcher.Registration.{maybe_auto_register}
use review_agent_v.Core.Material.Reading.{Desk}
use review_agent_v.Core.Material.Gate.{handle_no_session}
use review_agent_v.Core.Material.Later.{handle_in_session}
use review_agent_v.Lark.Message.{IncomingMessage, of_fields}

abbrev a_text : Option Json → Option Text
a_text (some (str t)) = some t
a_text _ = none

-- payload["session_id"]
abbrev pub session_id : Fields → Act Text
session_id payload = need (a_text (get "session_id" payload))

-- payload.get("forced", False), as a condition
abbrev pub is_forced : Option Json → Bool
is_forced none = false
is_forced (some v) = truthy v

module _ (desk : Desk) where
  abbrev pub known_or_registered : IncomingMessage → Option User → Act (Option User)
  known_or_registered msg (some user) = pure (some user)
  known_or_registered msg none =
      maybe_auto_register desk.env desk.auto_register msg.sender_open_id
        (desk.display_name msg.sender_open_id)

  abbrev pub serve_requester : User → IncomingMessage → Option Session → Act (Unit {0})
  serve_requester user msg (some s) = handle_in_session desk user.open_id s msg
  serve_requester user msg none = handle_no_session desk user msg

  -- What a known user gets.
  unfoldable pub serve : IncomingMessage → User → Act (Unit {0})
  unfolding handle_in_session handle_no_session has_role
  serve msg user = do
    active ← gets (λ w. get_active_session_for user.open_id w.storage)
    if has_role user Role.requester
        then serve_requester user msg active
        else safe_dm user.open_id (World.controls_elsewhere user.display_name)

  abbrev pub serve_if : IncomingMessage → Option User → Act (Unit {0})
  serve_if msg none = pure tt
  serve_if msg (some user) = serve msg user

  -- _handle_incoming
  unfoldable pub handle_incoming : IncomingMessage → Act (Unit {0})
  unfolding serve maybe_auto_register get_user
  handle_incoming msg = do
    known ← gets (λ w. get_user msg.sender_open_id w.storage)
    user ← known_or_registered msg known
    serve_if msg user

  -- dispatch; another kind is logged and dropped.
  unfoldable pub dispatch : (kind : Text) → (payload : Fields) → Act (Unit {0})
  unfolding handle_incoming of_fields do_scan do_merge do_final_gate do_build_and_deliver text_eq
  dispatch kind payload =
      if text_eq kind (txt "incoming_message")
      then (do msg ← need (of_fields payload); handle_incoming msg)
      else if text_eq kind (txt "scan")
      then (do sid ← session_id payload; do_scan desk.env sid)
      else if text_eq kind (txt "merge_draft")
      then (do sid ← session_id payload; do_merge desk.env sid)
      else if text_eq kind (txt "final_gate")
      then (do
        sid ← session_id payload
        do_final_gate desk.env sid (is_forced (get "forced" payload)))
      else if text_eq kind (txt "build_and_deliver")
      then (do sid ← session_id payload; do_build_and_deliver desk.env sid)
      else pure tt
