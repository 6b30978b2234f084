-- ===== src/Core/Material/Gate/Settles.antt =====
-- How the first message of a requester ends.
use review_agent_v.Core.Storage.Sessions.Lookup.{
  find_session-create_session, created_row, find_session-update_session,
}
use review_agent_v.Core.Material.Gate.{
  get_user, User, open_session, handle_no_session, settle_intake, begin, send_material_confirm,
  fail_session_error,
}
use review_agent_v.Prelude.{
  Text, ℕ, Bool, true, false, some, ◌∷◌, ◌≡◌, refl, sym, ap, ◌∙◌, ◌⊎◌, inl, inr,
}
use review_agent_v.Core.Enums.{Stage, SessionStatus}
use review_agent_v.Core.Models.{Session}
use review_agent_v.Core.Storage.Sessions.{find_session}
use review_agent_v.Core.Dispatcher.World.{Outcome, ok, llm_failure, exception, World}
use review_agent_v.Core.Material.Reading.{Desk}
use review_agent_v.Core.Material.Reading.Keeps.{KeepsRows-save_and_ingest}
use review_agent_v.Core.Material.Intake.{save_and_ingest}
use review_agent_v.Lark.Message.{IncomingMessage}
use review_agent_v.Pipeline.Ingest.Result.{Ingest, accepted, rejected, raised}

-- The row waits for a confirmation of the material, or its review ended before it began.
abbrev pub IsIntakeEnd : Session → Type 0
IsIntakeEnd r =
    ((r.stage ≡ Stage.awaiting_material_confirm) × (r.status ≡ SessionStatus.active))
    ⊎ ((r.stage ≡ Stage.ingest_failed)
        × ((r.status ≡ SessionStatus.cancelled) ⊎ (r.status ≡ SessionStatus.failed)))

-- The call returned, and the row of the session is such.
abbrev pub IsSettled : (sid : Text) → Outcome (Unit {0}) × World → Type 0
IsSettled sid (ok u, w) =
    (r : Session) × (find_session sid w.storage.sessions ≡ some r) × IsIntakeEnd r
IsSettled sid (llm_failure, w) = ⊥
IsSettled sid (exception, w) = ⊥

settle_intake-IsSettled :
    (desk : Desk) (oid : Text) (s r : Session) (res : Ingest Bool × World)
    → r.status ≡ SessionStatus.active
    → find_session s.id res.1.storage.sessions ≡ some r
    → IsSettled s.id (settle_intake desk oid s res)
unfolding send_material_confirm fail_session_error
settle_intake-IsSettled desk oid s r (accepted true, w) a h =
    (_, find_session-update_session s.id _ w.storage r (λ q. refl) h, inl (refl, a))
settle_intake-IsSettled desk oid s r (accepted false, w) a h =
    (_, find_session-update_session s.id _ w.storage r (λ q. refl) h, inr (refl, inl refl))
settle_intake-IsSettled desk oid s r (rejected m, w) a h =
    (_, find_session-update_session s.id _ w.storage r (λ q. refl) h, inr (refl, inl refl))
settle_intake-IsSettled desk oid s r (raised m, w) a h =
    (_, find_session-update_session s.id _ w.storage r (λ q. refl) h, inr (refl, inr refl))

begin-IsSettled :
    (desk : Desk) (oid : Text) (msg : IncomingMessage) (s : Session) (w : World)
    → s.status ≡ SessionStatus.active
    → find_session s.id w.storage.sessions ≡ some s
    → IsSettled s.id (begin desk oid msg (some s) w)
begin-IsSettled desk oid msg s w a h =
    settle_intake-IsSettled desk oid s s (save_and_ingest desk oid s msg w) a
      (ap (find_session s.id) (KeepsRows-save_and_ingest desk oid s msg w) ∙ h)

open_session_row :
    (desk : Desk) (oid responder_oid : Text) (w : World) (s : Session)
    → (open_session desk oid responder_oid w).1 ≡ some s
    → (s.status ≡ SessionStatus.active)
      × (find_session s.id (open_session desk oid responder_oid w).0.storage.sessions ≡ some s)
unfolding open_session
open_session_row desk oid responder_oid w s h = (
  ap (λ (q : Session). q.status)
      (sym (created_row _ _ oid responder_oid desk.admin_style desk.review_rules _ w.storage s h)),
  find_session-create_session _ _ oid responder_oid desk.admin_style desk.review_rules _ w.storage s
      h,
)

-- Where a requester without a session is paired with a user that is found, and a session can be
-- created, the first message is handled without an exception, whatever it holds and whatever the
-- network does: the new session then waits for a confirmation of the material, or is cancelled or
-- failed at INGEST_FAILED, and is never left at INTAKE.
pub handle_no_session_settles :
    (desk : Desk) (user responder : User) (msg : IncomingMessage) (w : World) (c : ℕ) (oid : Text)
    (s : Session)
    → user.pairing_responder_oid ≡ some (c ∷ oid)
    → get_user (c ∷ oid) w.storage ≡ some responder
    → (open_session desk user.open_id responder.open_id w).1 ≡ some s
    → IsSettled s.id (handle_no_session desk user msg w)
unfolding handle_no_session
handle_no_session_settles desk user responder msg w c oid s p g h =
    let (active, found) = open_session_row desk user.open_id responder.open_id w s h in
    rw (p, g, h)
      (begin-IsSettled desk user.open_id msg s
        (open_session desk user.open_id responder.open_id w).0 active found)
