-- ===== src/Core/Enums/RoundTrip.antt =====
-- What is written to the database as `member.value` is read back by `Enum(value)`.
use review_agent_v.Prelude.{◌≡◌, refl, some, text_eq}
use review_agent_v.Core.Enums.{
  Stage, SessionStatus, Verdict, Role, stage_value, session_status_value, verdict_value, role_value,
  stages, session_statuses, verdicts, roles, by_value,
}

stage_by_value : (s : Stage) → by_value stage_value stages (stage_value s) ≡ some s
unfolding stage_value text_eq
stage_by_value Stage.intake = refl
stage_by_value _ = refl

status_by_value :
    (s : SessionStatus)
    → by_value session_status_value session_statuses (session_status_value s) ≡ some s
unfolding session_status_value text_eq
status_by_value SessionStatus.active = refl
status_by_value _ = refl

verdict_by_value : (v : Verdict) → by_value verdict_value verdicts (verdict_value v) ≡ some v
unfolding verdict_value text_eq
verdict_by_value Verdict.ready = refl
verdict_by_value _ = refl

role_by_value : (r : Role) → by_value role_value roles (role_value r) ≡ some r
unfolding role_value text_eq
role_by_value Role.admin = refl
role_by_value _ = refl

-- Every stage, session status, verdict and role that is stored as its text is read back as
-- itself.
pub stored_enums_read_back :
    (g : Stage) (s : SessionStatus) (v : Verdict) (r : Role)
    → (by_value stage_value stages (stage_value g) ≡ some g)
      × (by_value session_status_value session_statuses (session_status_value s) ≡ some s)
      × (by_value verdict_value verdicts (verdict_value v) ≡ some v)
      × (by_value role_value roles (role_value r) ≡ some r)
stored_enums_read_back g s v r =
    (stage_by_value g, status_by_value s, verdict_by_value v, role_by_value r)
