-- ===== src/Core/Dispatcher/Incoming/Caught.antt =====
-- No LLMTerminalFailure leaves `dispatch`, so that the worker's branch for it is never taken.
use review_agent_v.Prelude.{Text, txt, text_eq, Bool, Option, none, some, ◌≢◌}
use review_agent_v.Prelude.Json.{Fields, get}
use review_agent_v.Core.Enums.{Role}
use review_agent_v.Core.Models.{Session, User, has_role}
use review_agent_v.Core.Storage.Sessions.{get_active_session_for}
use review_agent_v.Core.Storage.Users.{get_user}
use review_agent_v.Core.Dispatcher.World
use review_agent_v.Core.Dispatcher.World.{
  World, Act, Outcome, ok, llm_failure, exception, ◌>>=◌, ◌>>◌, pure, need, safe_dm,
}
use review_agent_v.Core.Dispatcher.Stages.{do_merge, do_final_gate, do_build_and_deliver}
use review_agent_v.Core.Dispatcher.Scanning.{do_scan}
use review_agent_v.Core.Dispatcher.Scanning.Caught.{IsCaught-do_scan}
use review_agent_v.Core.Dispatcher.Handlers.Caught.{IsCaught-choice}
use review_agent_v.Core.Dispatcher.Registration.Pairing.{
  IsRegistered, maybe_auto_register-IsRegistered,
}
use review_agent_v.Core.Dispatcher.CloseChain.Caught.{
  IsCaught, IsCaught-bind, IsCaught-need, IsCaught-do_merge, IsCaught-do_final_gate,
  IsCaught-do_build_and_deliver,
}
use review_agent_v.Core.Material.Reading.{Desk}
use review_agent_v.Core.Material.Later.Caught.{
  IsCaught-handle_in_session, IsCaught-handle_no_session,
}
use review_agent_v.Core.Dispatcher.Incoming.{
  session_id, is_forced, known_or_registered, serve_requester, serve, serve_if, handle_incoming,
  dispatch,
}
use review_agent_v.Lark.Message.{IncomingMessage, of_fields}

registered_caught :
    (oid : Text) (enabled : Bool) (w : World) (r : Outcome (Option User) × World)
    → IsRegistered oid enabled w r
    → r.0 ≢ llm_failure
registered_caught oid enabled w (ok u, v) h = λ e. cc
registered_caught oid enabled w (llm_failure, v) h = absurd h
registered_caught oid enabled w (exception, v) h = λ e. cc

module _ (desk : Desk) where
  IsCaught-known_or_registered :
      (msg : IncomingMessage) (known : Option User) → IsCaught (known_or_registered desk msg known)
  IsCaught-known_or_registered msg (some user) w = λ h. cc
  IsCaught-known_or_registered msg none w =
      let oid = msg.sender_open_id in
      registered_caught oid desk.auto_register w _
        (maybe_auto_register-IsRegistered desk.env desk.auto_register oid (desk.display_name oid) w)

  IsCaught-serve_requester :
      (user : User) (msg : IncomingMessage) (active : Option Session)
      → IsCaught (serve_requester desk user msg active)
  IsCaught-serve_requester user msg (some s) = IsCaught-handle_in_session desk user.open_id s msg
  IsCaught-serve_requester user msg none = IsCaught-handle_no_session desk user msg

  IsCaught-serve : (msg : IncomingMessage) (user : User) → IsCaught (serve desk msg user)
  unfolding serve
  IsCaught-serve msg user w =
      IsCaught-choice (has_role user Role.requester)
        (serve_requester desk user msg (get_active_session_for user.open_id w.storage))
        (safe_dm user.open_id (World.controls_elsewhere user.display_name))
        (IsCaught-serve_requester user msg (get_active_session_for user.open_id w.storage))
        (λ v h. cc) w

  IsCaught-serve_if :
      (msg : IncomingMessage) (user : Option User) → IsCaught (serve_if desk msg user)
  IsCaught-serve_if msg none w = λ h. cc
  IsCaught-serve_if msg (some user) w = IsCaught-serve msg user w

  IsCaught-handle_incoming : (msg : IncomingMessage) → IsCaught (handle_incoming desk msg)
  unfolding handle_incoming
  IsCaught-handle_incoming msg w =
      let known = get_user msg.sender_open_id w.storage in
      IsCaught-bind (known_or_registered desk msg known) (serve_if desk msg)
        (IsCaught-known_or_registered msg known) (IsCaught-serve_if msg) w

  IsCaught-with_session :
      (payload : Fields) (f : Text → Act (Unit {0}))
      → ((sid : Text) → IsCaught (f sid))
      → IsCaught (session_id payload >>= f)
  IsCaught-with_session payload f h = IsCaught-bind (session_id payload) f (IsCaught-need _) h

  -- Whatever the task, the answers of the model and the storage, dispatch never ends with an
  -- LLMTerminalFailure: every part that asks the model catches its own.
  pub dispatch_caught :
      (kind : Text) (payload : Fields) (w : World) → (dispatch desk kind payload w).0 ≢ llm_failure
  unfolding dispatch
  dispatch_caught kind payload =
      IsCaught-choice (text_eq kind (txt "incoming_message")) _ _
        (IsCaught-bind (need (of_fields payload)) (handle_incoming desk) (IsCaught-need _)
          IsCaught-handle_incoming)
        (IsCaught-choice (text_eq kind (txt "scan")) _ _
          (IsCaught-with_session payload (do_scan desk.env) (IsCaught-do_scan desk.env))
          (IsCaught-choice (text_eq kind (txt "merge_draft")) _ _
            (IsCaught-with_session payload (do_merge desk.env) (IsCaught-do_merge desk.env))
            (IsCaught-choice (text_eq kind (txt "final_gate")) _ _
              (IsCaught-with_session payload
                (λ sid. do_final_gate desk.env sid (is_forced (get "forced" payload)))
                λ sid. IsCaught-do_final_gate desk.env sid _)
              (IsCaught-choice (text_eq kind (txt "build_and_deliver")) _ _
                (IsCaught-with_session payload (do_build_and_deliver desk.env)
                  (IsCaught-do_build_and_deliver desk.env))
                λ w h. cc))))
