-- ===== src/Checks/Delivering.antt =====
-- The theorems on the gate, the rounds and the delivery, at concrete values.
use review_agent_v.Prelude.{
  txt, Text, ◌≡◌, ◌≢◌, some, [], ◌∷◌, refl, true, false, Option, length, if◌then◌else◌, text_eq,
  one_of,
}
use review_agent_v.Prelude.Json.{str, obj, Fields, end, field, get_or, get, is_text}
use review_agent_v.Core.Enums.{Verdict}
use review_agent_v.Core.Storage.Sessions.{dir, find_dir}
use review_agent_v.Pipeline.FinalGate.{decide, intent_fails, aggregate_counts}
use review_agent_v.Pipeline.FinalGate.Decision.{passing_gates}
use review_agent_v.Pipeline.FinalGate.Counts.{sum_totals, AreBounded, aggregate_counts_account}
use review_agent_v.Pipeline.Deliver.{
  Wire, Setting, run, all_ok, set_closed, set_closing, deliver_one, is_true_text, deliver_with,
  finish,
}
use review_agent_v.Pipeline.Deliver.Backends.{
  Target, Backend, lark_dm, body_hash, attempt, lark_dm_text,
}
use review_agent_v.Core.Storage.Audit.{outbound_already_sent}
use review_agent_v.Util.Md.{text_hash}
use review_agent_v.Pipeline.Deliver.Close.{on_rows, closed_iff_all_ok}
use review_agent_v.Pipeline.Deliver.Once.{redelivery_sends_nothing}
use review_agent_v.Checks.Samples.{session, row, store, upper}

abbrev sha256 : Text → Text
sha256 s = s

abbrev target : Target
target = record {
  name = txt "dm";
  backend = txt "lark_dm";
  open_id = txt "ou_bob";
  path = [];
  payload = txt "summary" ∷ [];
  role = txt "responder";
}

abbrev backends : Text → Option Backend
backends name = some (lark_dm 4000)

-- Every call goes out.
abbrev setting : Setting
setting = record {
  backends = backends;
  sha256 = sha256;
  send = λ n. some (txt "m");
  now = txt "t9";
}

abbrev wire : Wire
wire = record { storage = store; sends = 0 }

closed_iff_all_ok_example :
    (length (run setting session (target ∷ []) wire).0 ≡ 1)
    × ((run setting session (target ∷ []) wire).1.storage.sessions ≡ (
        if all_ok (run setting session (target ∷ []) wire).0
        then on_rows
            (txt "s1")
            (set_closed (txt "t9"))
            (on_rows (txt "s1") set_closing store.sessions)
        else on_rows (txt "s1") set_closing store.sessions))
closed_iff_all_ok_example = closed_iff_all_ok setting session (target ∷ []) wire

hashed : is_true_text (body_hash sha256 (lark_dm 4000) target (dir (txt "s1") store) []) ≡ true
unfolding body_hash dir find_dir text_eq one_of text_hash
hashed = refl

sent_once : (deliver_one setting session target [] wire).0.ok ≡ true
unfolding deliver_one deliver_with attempt lark_dm_text finish body_hash dir find_dir text_eq one_of
    text_hash outbound_already_sent
sent_once = refl

redelivery_sends_nothing_example :
    ((deliver_one setting session target [] (deliver_one setting session target [] wire).1).0.ok
      ≡ true)
    × ((deliver_one setting session target [] (deliver_one setting session target [] wire).1).1
        ≡ (deliver_one setting session target [] wire).1)
redelivery_sends_nothing_example =
    redelivery_sends_nothing setting session target [] (lark_dm 4000) wire refl hashed refl
      sent_once

aggregate_counts_account_example :
    (sum_totals (aggregate_counts (row (txt "p1") ∷ [])) ≡ 1)
    × AreBounded (aggregate_counts (row (txt "p1") ∷ []))
aggregate_counts_account_example = aggregate_counts_account (row (txt "p1") ∷ [])

-- An answer with the verdict READY.
abbrev ready_answer : Fields
ready_answer = field "verdict" (str (txt "READY")) end

judged : decide upper false (obj ready_answer) ≡ some Verdict.ready
unfolding decide get_or get is_text text_eq
judged = refl

not_fail : Verdict.ready ≢ Verdict.fail
not_fail h = cc

passing_gates_example :
    (is_text (txt "fail") (some (get_or "csw_gate_status" (str (txt "pass")) ready_answer)) ≡ false)
    × (intent_fails (get_or "pillar_verdict" (obj end) ready_answer) ≡ some false)
passing_gates_example = passing_gates upper ready_answer Verdict.ready judged not_fail
