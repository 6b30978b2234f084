-- ===== src/Pipeline/FinalGate.antt =====
-- review_agent/pipeline/final_gate.py: the verdict on the revised draft, and the counts that go into
-- verdict.json. `upper` is `str.upper`; `env` is what `_json.extract` gives for the model's answer.
pub mod Decision
pub mod Counts
use review_agent_v.Prelude.{
  Text, txt, text_eq, ℕ, ◌+◌, suc, Bool, true, false, ◌&&◌, ◌||◌, not, Option, none, some, List, [],
  ◌∷◌, if◌then◌else◌,
}
use review_agent_v.Prelude.Json.{
  Json, null, str, arr, obj, nil, Fields, end, field, get, get_or, is_text,
}
use review_agent_v.Core.Enums.{
  Verdict, Stage, Pillar, pillar_value, FindingStatus, status_value, Severity, severity_value,
}
use review_agent_v.Core.Models.{Session, PillarCounts, GateOutcome}

abbrev pub zero_counts : PillarCounts
zero_counts = record { pass = 0; open_blocker = 0; unresolvable = 0; total = 0 }

-- f.get(key, default), where rows hold texts.
abbrev pub text_or : Text → Option Json → Text
text_or default none = default
text_or default (some (str s)) = s
text_or default (some v) = []

-- One finding more.
unfoldable pub add_finding : Fields → PillarCounts → PillarCounts
add_finding f c =
    let c' = record c { total = c.total + 1 } in
    let status = text_or (status_value FindingStatus.opened) (get "status" f) in
    if text_eq status (status_value FindingStatus.accepted)
      || text_eq status (status_value FindingStatus.modified)
    then record c' { pass = c.pass + 1 }
    else if text_eq status (status_value FindingStatus.unresolvable)
    then record c' { unresolvable = c.unresolvable + 1 }
    else if is_text (severity_value Severity.blocker) (get "severity" f)
    then record c' { open_blocker = c.open_blocker + 1 }
    else c'

-- counts[pillar] of the defaultdict, changed by `f`.
unfoldable pub count_at : {V : Type 0} → V → Text → (V → V) → List (Text × V) → List (Text × V)
count_at zero k f [] = (k, f zero) ∷ []
count_at zero k f ((j, v) ∷ m) = if text_eq k j then (j, f v) ∷ m else (j, v) ∷ count_at zero k f m

unfoldable pub aggregate_from :
    List (Text × PillarCounts) → List Fields → List (Text × PillarCounts)
aggregate_from counts [] = counts
aggregate_from counts (f ∷ fs) =
    aggregate_from
      (count_at zero_counts (text_or (txt "Unknown") (get "pillar" f)) (add_finding f) counts) fs

unfoldable pub aggregate_counts : List Fields → List (Text × PillarCounts)
aggregate_counts fs = aggregate_from [] fs

unfoldable pub sources_from : List (Text × ℕ) → List Fields → List (Text × ℕ)
sources_from out [] = out
sources_from out (f ∷ fs) =
    sources_from (count_at 0 (text_or (txt "unknown") (get "source" f)) suc out) fs

unfoldable pub aggregate_sources : List Fields → List (Text × ℕ)
aggregate_sources fs = sources_from [] fs

-- `pillar_verdict.get("Intent") == "fail"`; `none` where it is no dict.
abbrev pub intent_fails : Json → Option Bool
intent_fails (obj d) = some (is_text (txt "fail") (get "Intent" d))
intent_fails _ = none

-- The branches after FORCED_PARTIAL and the two gates.
abbrev pub by_raw : Text → Verdict
by_raw raw =
    if text_eq raw (txt "READY_WITH_OPEN_ITEMS")
    then Verdict.ready_with_open_items
    else if text_eq raw (txt "FAIL")
    then Verdict.fail
    else Verdict.ready

abbrev pub by_pillar : Option Bool → Text → Option Verdict
by_pillar none raw = none
by_pillar (some fails) raw = some (if fails then Verdict.fail else by_raw raw)

-- `none` is an AttributeError: an answer that is no dict, or has no text as its verdict.
unfoldable pub decide : (Text → Text) → (forced : Bool) → Json → Option Verdict
decide upper forced (obj env) = elim (get_or "verdict" (str (txt "READY")) env) [
  | str raw ↦
      if forced
      then some Verdict.forced_partial
      else if is_text (txt "fail") (some (get_or "csw_gate_status" (str (txt "pass")) env))
      then some Verdict.fail
      else by_pillar (intent_fails (get_or "pillar_verdict" (obj end) env)) (upper raw)
  | _ ↦ none
]
decide upper forced _ = none

-- The columns that `run` sets; `s` is the session that it was given.
unfoldable pub gate_session : Verdict → Session → Session → Session
gate_session Verdict.fail s row = record row {
  fail_count = suc s.fail_count;
  verdict = some Verdict.fail;
}
gate_session v s row = record row { verdict = some v; stage = Stage.closing }

-- The outcome that goes to verdict.json.
unfoldable pub gate_outcome : Verdict → Fields → List Fields → GateOutcome
unfolding get_or
gate_outcome v env findings = record {
  verdict = v;
  csw_gate_status = get_or "csw_gate_status" (str (txt "pass")) env;
  pillar_verdict = get_or "pillar_verdict" (obj end) env;
  pillar_counts = aggregate_counts findings;
  by_source = aggregate_sources findings;
  regressions = get_or "regressions" (arr nil) env;
}
