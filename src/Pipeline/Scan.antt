-- ===== src/Pipeline/Scan.antt =====
-- review_agent/pipeline/scan.py: the model's findings are parsed, ordered by importance, and put into
-- a cursor. The answers of the model are taken as the values that `_json.extract` gives.
pub mod Order
pub mod Parse
pub mod Asked
use review_agent_v.Prelude.{
  Text, txt, text_eq, ℕ, suc, ltb, eqb, Bool, true, false, not, ◌&&◌, ◌||◌, Option, none, some,
  List, [], ◌∷◌, ◌++◌, map, take, drop, if◌then◌else◌,
}
use review_agent_v.Prelude.Json.{ℤ, pos, negsuc}
use review_agent_v.Core.Enums.{Pillar, Severity, Stage}
use review_agent_v.Core.Models.{Finding}
use review_agent_v.Core.Cursor.{Cursor, empty}
use review_agent_v.Core.Storage.Tables.{Dir}
use review_agent_v.Core.Storage.Findings.{append_finding, save_cursor}
use review_agent_v.Core.Storage.Sessions.{text_lt}

-- _SEV_ORDER
unfoldable pub sev_order : Severity → ℕ
sev_order Severity.blocker = 0
sev_order Severity.improvement = 1
sev_order Severity.nice_to_have = 2

-- `0 if pillar == Intent else 1`
unfoldable pub intent_first : Pillar → ℕ
intent_first Pillar.intent = 0
intent_first _ = 1

-- `priority or 99`
unfoldable pub priority_key : Option ℤ → ℤ
priority_key none = pos 99
priority_key (some (pos n)) = if eqb n 0 then pos 99 else pos n
priority_key (some (negsuc n)) = negsuc n

unfoldable pub int_lt : ℤ → ℤ → Bool
int_lt (pos a) (pos b) = ltb a b
int_lt (pos a) (negsuc b) = false
int_lt (negsuc a) (pos b) = true
int_lt (negsuc a) (negsuc b) = ltb b a

unfoldable pub int_eq : ℤ → ℤ → Bool
int_eq (pos a) (pos b) = eqb a b
int_eq (negsuc a) (negsuc b) = eqb a b
int_eq _ _ = false

-- key(f) < key(g), the tuples compared from the left.
unfoldable pub key_lt : Finding → Finding → Bool
key_lt f g =
    ltb (sev_order f.severity) (sev_order g.severity)
    || eqb (sev_order f.severity) (sev_order g.severity)
      && (ltb (intent_first f.pillar) (intent_first g.pillar)
          || eqb (intent_first f.pillar) (intent_first g.pillar)
            && (int_lt (priority_key f.priority) (priority_key g.priority)
                || int_eq (priority_key f.priority) (priority_key g.priority) && text_lt f.id g.id))

-- `sorted` is stable: `f`, which stood first, stays before those that are not less.
unfoldable pub insert_by_key : Finding → List Finding → List Finding
insert_by_key f [] = f ∷ []
insert_by_key f (g ∷ fs) = if key_lt g f then g ∷ insert_by_key f fs else f ∷ g ∷ fs

unfoldable pub sort_by_key : List Finding → List Finding
sort_by_key [] = []
sort_by_key (f ∷ fs) = insert_by_key f (sort_by_key fs)

abbrev pub finding_ids : List Finding → List Text
finding_ids fs = map (λ f. f.id) fs

unfoldable pub prioritize : List Finding → List Text
prioritize fs = finding_ids (sort_by_key fs)

abbrev pub pop_first : List Text → Cursor → Cursor
pop_first [] c = c
pop_first (fid ∷ rest) c = record c { current_id = some fid; pending = rest }

-- The cursor over the sorted identifiers.
unfoldable pub scan_cursor : ℕ → List Text → Cursor
scan_cursor top_n ids = pop_first (take top_n ids) (record empty { deferred = drop top_n ids })

unfoldable pub append_findings : List Finding → Dir → Dir
append_findings [] d = d
append_findings (f ∷ fs) d = append_findings fs (append_finding f d)

-- The files after the scan; the session's stage becomes QA_ACTIVE.
unfoldable pub scan_dir : ℕ → List Finding → Dir → Dir
scan_dir top_n fs d = save_cursor (scan_cursor top_n (prioritize fs)) (append_findings fs d)
