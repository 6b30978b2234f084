-- ===== src/Core/Storage/Audit.antt =====
-- Storage: the audit tables `llm_calls` and `outbound`. Token counts and latencies are left out of
-- `llm_calls`: the program never reads them.
use review_agent_v.Prelude.{Text, text_eq, Bool, ◌&&◌, [], ◌∷◌, ◌++◌, any}
use review_agent_v.Core.Storage.Tables.{Storage, Outbound}

unfoldable pub log_llm_call : (session_id stage : Text) → Bool → Storage → Storage
log_llm_call sid stage ok s = record s {
  llm_calls = s.llm_calls ++ record { session_id = sid; stage = stage; ok = ok } ∷ [];
}

unfoldable pub has_llm_call_for_stage : (session_id stage : Text) → Storage → Bool
has_llm_call_for_stage sid stage s =
    any (λ c. text_eq sid c.session_id && text_eq stage c.stage) s.llm_calls

unfoldable pub log_outbound : Outbound → Storage → Storage
log_outbound o s = record s { outbound = s.outbound ++ o ∷ [] }

abbrev pub is_sent : (session_id to_open_id content_hash : Text) → Outbound → Bool
is_sent sid to hash o =
    text_eq sid o.session_id && text_eq to o.to_open_id && text_eq hash o.content_hash && o.ok

unfoldable pub outbound_already_sent : (session_id to_open_id content_hash : Text) → Storage → Bool
outbound_already_sent sid to hash s = any (is_sent sid to hash) s.outbound
