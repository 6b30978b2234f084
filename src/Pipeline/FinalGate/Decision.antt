-- ===== src/Pipeline/FinalGate/Decision.antt =====
-- What the verdict depends on.
use review_agent_v.Prelude.{Text, txt, ◌+◌, Bool, true, false, some, ◌≡◌, ◌≢◌, arith}
use review_agent_v.Prelude.Json.{Json, str, obj, Fields, end, get_or, is_text}
use review_agent_v.Core.Enums.{Verdict, Stage}
use review_agent_v.Core.Models.{Session}
use review_agent_v.Pipeline.FinalGate.{decide, intent_fails, gate_session}

-- A forced gate never fails: wherever it gives a verdict, that is FORCED_PARTIAL; and no other
-- gate gives FORCED_PARTIAL.
pub forced_partial_iff :
    (upper : Text → Text) (forced : Bool) (env : Json) (v : Verdict)
    → decide upper forced env ≡ some v
    → (forced ≡ true → v ≡ Verdict.forced_partial) × (v ≡ Verdict.forced_partial → forced ≡ true)
unfolding decide
forced_partial_iff upper forced env v h = (λ e. ground arith, λ e. ground arith)

-- Without force, a verdict other than FAIL means that neither the gate on the request (CSW) nor
-- the pillar Intent failed.
pub passing_gates :
    (upper : Text → Text) (env : Fields) (v : Verdict)
    → decide upper false (obj env) ≡ some v
    → v ≢ Verdict.fail
    → (is_text (txt "fail") (some (get_or "csw_gate_status" (str (txt "pass")) env)) ≡ false)
      × (intent_fails (get_or "pillar_verdict" (obj end) env) ≡ some false)
unfolding decide
passing_gates upper env v h n = (ground arith, ground arith)

-- A verdict other than FAIL moves the session to CLOSING and keeps its count of failures; FAIL counts
-- one failure more and leaves the stage.
pub gate_session_cases :
    (v : Verdict) (s : Session)
    → ((gate_session v s s).verdict ≡ some v)
      × (v ≢ Verdict.fail
          → ((gate_session v s s).stage ≡ Stage.closing)
            × ((gate_session v s s).fail_count ≡ s.fail_count))
      × (v ≡ Verdict.fail
          → ((gate_session v s s).stage ≡ s.stage)
            × ((gate_session v s s).fail_count ≡ s.fail_count + 1))
unfolding gate_session
gate_session_cases v s =
    (ground arith, λ h. (ground arith, ground arith), λ h. (ground arith, ground arith))
