-- ===== src/Core/Models.antt =====
-- `User`, `Session`, `Anchor` and `Finding` of review_agent/core/models.py.
use mathlib.Core.Option
use review_agent_v.Prelude.{
  String, Text, ℕ, Bool, true, false, Option, none, some, List, [], ◌∷◌, any, if◌then◌else◌,
}
use review_agent_v.Prelude.Json.{
  ℤ, pos, Json, null, bool, num, str, arr, obj, Items, Fields, end, field, put,
}
use review_agent_v.Core.Enums.{
  Stage, SessionStatus, Verdict, Role, Pillar, Severity, FindingSource, FindingStatus, role_eq,
  pillar_value, severity_value, source_value, status_value,
}

pub record User : Type 0 where
  pub open_id : Text
  pub display_name : Text
  pub roles : List Role
  pub pairing_responder_oid : Option Text
  pub created_at : Text
  pub updated_at : Text

-- user.has_role(role), role in user.roles
unfoldable pub has_role : User → Role → Bool
unfolding role_eq
has_role u role = any (role_eq role) u.roles

pub record Session : Type 0 where
  pub id : Text
  pub requester_oid : Text
  pub responder_oid : Text
  pub started_at : Text
  pub stage : Stage
  pub status : SessionStatus
  pub round_no : ℕ
  pub subject : Option Text
  pub closed_at : Option Text
  pub verdict : Option Verdict
  pub trigger_source : Text
  pub failed_stage : Option Stage
  pub last_error : Option Text
  pub fail_count : ℕ
  pub meta : Fields
  pub admin_style : Text
  pub review_rules : Text
  pub responder_profile : Text

pub record Anchor : Type 0 where
  pub source : Text
  pub section : Json
  pub line_range : Option Items
  pub text_hash : Option Text
  pub snippet : Json

pub record Finding : Type 0 where
  pub id : Text
  pub round : ℕ
  pub created_at : Text
  pub source : FindingSource
  pub pillar : Pillar
  pub severity : Severity
  pub issue : Json
  pub suggest : Json
  pub anchor : Anchor
  pub status : FindingStatus
  pub simulated_question : Json
  pub priority : Option ℤ
  pub reply : Option Text
  pub replied_at : Option Text
  pub unresolvable_reason : Option Text
  pub extra : Fields
  pub escalated_to_open_items : Bool

-- The values of one pillar in `_aggregate_counts`.
pub record PillarCounts : Type 0 where
  pub pass : ℕ
  pub open_blocker : ℕ
  pub unresolvable : ℕ
  pub total : ℕ

pub record GateOutcome : Type 0 where
  pub verdict : Verdict
  pub csw_gate_status : Json
  pub pillar_verdict : Json
  pub pillar_counts : List (Text × PillarCounts)
  pub by_source : List (Text × ℕ)
  pub regressions : Json

abbrev opt_str : Option Text → Json
opt_str none = null
opt_str (some s) = str s

abbrev opt_num : Option ℤ → Json
opt_num none = null
opt_num (some n) = num n

-- d[k] = v, under `if v is not None`
abbrev put_some : String → Option Json → Fields → Fields
put_some k none d = d
put_some k (some v) d = put k v d

abbrev is_null : Json → Bool
is_null null = true
is_null _ = false

-- Anchor.to_dict
unfoldable pub anchor_to_dict : Anchor → Fields
unfolding put
anchor_to_dict a =
    let d = field "source" (str a.source) (field "snippet" a.snippet end) in
    let d1 = (if is_null a.section then d else put "section" a.section d) in
    let d2 = put_some "line_range" (Option.map arr a.line_range) d1 in
    put_some "text_hash" (Option.map str a.text_hash) d2

-- `v is not None and v != "" and v != {}`
unfoldable pub is_kept : Json → Bool
is_kept null = false
is_kept (str []) = false
is_kept (obj end) = false
is_kept (bool b) = true
is_kept (num n) = true
is_kept (str (c ∷ s)) = true
is_kept (arr xs) = true
is_kept (obj (field k v d)) = true

-- {k: v for k, v in d.items() if is_kept(v)}
unfoldable pub keep_fields : Fields → Fields
unfolding is_kept
keep_fields end = end
keep_fields (field k v d) = if is_kept v then field k v (keep_fields d) else keep_fields d

-- Finding.to_jsonl: one line of annotations.jsonl
unfoldable pub to_jsonl : Finding → Fields
unfolding anchor_to_dict keep_fields
to_jsonl f = keep_fields (
    field "id" (str f.id) (
      field "round" (num (pos f.round)) (
        field "created_at" (str f.created_at) (
          field "source" (str (source_value f.source)) (
            field "pillar" (str (pillar_value f.pillar)) (
              field "severity" (str (severity_value f.severity)) (
                field "issue" f.issue (
                  field "suggest" f.suggest (
                    field "anchor" (obj (anchor_to_dict f.anchor)) (
                      field "status" (str (status_value f.status)) (
                        field "simulated_question" f.simulated_question (
                          field "priority" (opt_num f.priority) (
                            field "reply" (opt_str f.reply) (
                              field "replied_at" (opt_str f.replied_at) (
                                field "unresolvable_reason" (opt_str f.unresolvable_reason) (
                                  field "extra" (obj f.extra) (
                                    field "escalated_to_open_items" (bool f.escalated_to_open_items)
                                      end)))))))))))))))))
