-- ===== src/Core/Storage/Sessions/Listed.antt =====
-- Storage: `list_sessions`, and what it has in common with `get_active_session_for`.
use review_agent_v.Prelude.{
  ℕ, sym, Text, text_eq, Bool, true, ◌&&◌, Bool-cases, Option, none, some, List, [], ◌∷◌, filter,
  map, if◌then◌else◌, ◌≡◌, refl, ap, ◌∙◌, inl, inr,
}
use review_agent_v.Core.Enums.{SessionStatus}
use review_agent_v.Core.Models.{Session}
use review_agent_v.Core.Storage.Tables.{Storage}
use review_agent_v.Core.Storage.Sessions.{
  text_lt, status_eq, row_to_session, latest, later, load, get_active_session_for,
}

-- AND column=?, where the argument is not empty
abbrev matches : Option Text → (column : Text) → Bool
matches none column = true
matches (some []) column = true
matches (some (c ∷ oid)) column = text_eq (c ∷ oid) column

abbrev has_status : Option SessionStatus → SessionStatus → Bool
has_status none status = true
has_status (some wanted) status = status_eq status wanted

unfoldable insert_latest_first : Session → List Session → List Session
insert_latest_first r [] = r ∷ []
insert_latest_first r (q ∷ rows) =
    let rest = insert_latest_first r rows in
    if text_lt r.started_at q.started_at then q ∷ rest else r ∷ q ∷ rows

-- ORDER BY started_at DESC, in the order of the rows where several started together
unfoldable latest_first : List Session → List Session
unfolding insert_latest_first
latest_first [] = []
latest_first (r ∷ rows) = insert_latest_first r (latest_first rows)

unfoldable pub list_sessions :
    (requester_oid responder_oid : Option Text) → Option SessionStatus → Storage → List Session
unfolding latest_first
list_sessions requester_oid responder_oid status s = map (row_to_session s) (
    latest_first (
      filter
        (λ r.
          matches requester_oid r.requester_oid
          && (matches responder_oid r.responder_oid && has_status status r.status))
        s.sessions))

abbrev pub head : List Session → Option Session
head [] = none
head (r ∷ rows) = some r

head-insert_latest_first :
    (r : Session) (rows : List Session) → head (insert_latest_first r rows) ≡ later r (head rows)
unfolding insert_latest_first
head-insert_latest_first r [] = refl
head-insert_latest_first r (q ∷ rows) = elim (Bool-cases (text_lt r.started_at q.started_at)) [
  | inl before ↦ rw before refl
  | inr after ↦ rw after refl
]

-- The first row in this order is the latest one.
head-latest_first : (rows : List Session) → head (latest_first rows) ≡ latest rows
unfolding latest_first latest
head-latest_first [] = refl
head-latest_first (r ∷ rows) =
    head-insert_latest_first r (latest_first rows) ∙ ap (later r) (head-latest_first rows)

head-map :
    (s : Storage) (rows : List Session)
    → head (map (row_to_session s) rows) ≡ load (row_to_session s) (head rows)
head-map s [] = refl
head-map s (r ∷ rows) = refl

-- The active session of a requester, whose identifier is not empty, is the first one of the list
-- of the active sessions of this requester, and there is none exactly where this list is empty.
pub get_active_session_for_is_first :
    (c : ℕ) (oid : Text) (s : Storage)
    → get_active_session_for (c ∷ oid) s
      ≡ head (list_sessions (some (c ∷ oid)) none (some SessionStatus.active) s)
unfolding get_active_session_for list_sessions
get_active_session_for_is_first c oid s =
    let rows =
      filter (λ r. text_eq (c ∷ oid) r.requester_oid && status_eq r.status SessionStatus.active)
        s.sessions in
    sym (head-map s (latest_first rows) ∙ ap (load (row_to_session s)) (head-latest_first rows))
