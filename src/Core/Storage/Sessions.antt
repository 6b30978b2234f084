-- ===== src/Core/Storage/Sessions.antt =====
-- Storage: the table `sessions` and the directories of the sessions.
pub mod Lookup
pub mod Listed
use review_agent_v.Prelude.{
  Text, txt, text_eq, Bool, true, false, ◌&&◌, ◌||◌, Option, none, some, List, [], ◌∷◌, ◌++◌,
  filter, find?, any, map, eqb, if◌then◌else◌, ltb, is_none,
}
use review_agent_v.Prelude.Json.{end}
use review_agent_v.Core.Enums.{Stage, SessionStatus}
use review_agent_v.Core.Models.{Session}
use review_agent_v.Core.Cursor.{empty}
use review_agent_v.Core.Cursor.Dict.{to_dict}
use review_agent_v.Core.Storage.Tables.{Storage, Dir}
use review_agent_v.Core.Storage.Users.{get_user}

-- s < t, by code points
unfoldable pub text_lt : Text → Text → Bool
text_lt [] [] = false
text_lt [] (d ∷ t) = true
text_lt (c ∷ s) [] = false
text_lt (c ∷ s) (d ∷ t) = ltb c d || eqb c d && text_lt s t

abbrev pub status_eq : SessionStatus → SessionStatus → Bool
status_eq SessionStatus.active SessionStatus.active = true
status_eq SessionStatus.closed SessionStatus.closed = true
status_eq SessionStatus.failed SessionStatus.failed = true
status_eq SessionStatus.cancelled SessionStatus.cancelled = true
status_eq _ _ = false

-- The files of a directory; one that was never made has none.
abbrev no_files : Dir
no_files = record {
  admin_style = none;
  review_rules = none;
  profile = none;
  annotations = none;
  conversation = [];
  dissent = [];
  cursor = none;
  normalized = none;
  revised = none;
  verdict = none;
  summary = none;
}

unfoldable pub find_dir : Text → List (Text × Dir) → Dir
find_dir sid [] = no_files
find_dir sid ((k, d) ∷ dirs) = if text_eq sid k then d else find_dir sid dirs

unfoldable pub put_dir : Text → Dir → List (Text × Dir) → List (Text × Dir)
put_dir sid d [] = (sid, d) ∷ []
put_dir sid d ((k, e) ∷ dirs) = if text_eq sid k then (k, d) ∷ dirs else (k, e) ∷ put_dir sid d dirs

unfoldable pub dir : Text → Storage → Dir
unfolding find_dir
dir sid s = find_dir sid s.dirs

-- The storage after the files of one session were changed by `f`.
unfoldable pub on_dir : Text → (Dir → Dir) → Storage → Storage
unfolding find_dir put_dir
on_dir sid f s = record s { dirs = put_dir sid (f (find_dir sid s.dirs)) s.dirs }

-- The row that `create_session` inserts.
abbrev pub new_session : Text → Text → Text → Text → Session
new_session sid requester_oid responder_oid now = record {
  id = sid;
  requester_oid = requester_oid;
  responder_oid = responder_oid;
  started_at = now;
  stage = Stage.intake;
  status = SessionStatus.active;
  round_no = 1;
  subject = none;
  closed_at = none;
  verdict = none;
  trigger_source = txt "dm";
  failed_stage = none;
  last_error = none;
  fail_count = 0;
  meta = end;
  admin_style = [];
  review_rules = [];
  responder_profile = [];
}

-- The files that `create_session` writes.
abbrev pub new_dir : Text → Text → Text → Dir
new_dir admin_style review_rules profile = record no_files {
  admin_style = some admin_style;
  review_rules = some review_rules;
  profile = some profile;
  annotations = some [];
  cursor = some (to_dict empty);
}

-- `none` is sqlite's IntegrityError: the key is taken, or a user is not there. The directory is made
-- before the row, so on an error it stays.
unfoldable pub create_session :
    (sid now requester_oid responder_oid admin_style review_rules profile : Text)
    → Storage
    → Storage × Option Session
unfolding on_dir get_user
create_session sid now requester_oid responder_oid admin_style review_rules profile s =
    let s' = on_dir sid (λ _. new_dir admin_style review_rules profile) s in
    let row = new_session sid requester_oid responder_oid now in
    if any (λ r. text_eq sid r.id) s.sessions
      || is_none (get_user requester_oid s)
      || is_none (get_user responder_oid s)
    then (s', none)
    else (record s' { sessions = s.sessions ++ row ∷ [] }, some row)

abbrev or_empty : Option Text → Text
or_empty none = []
or_empty (some t) = t

-- `_row_to_session`: the frozen configuration comes from the files.
unfoldable pub row_to_session : Storage → Session → Session
unfolding dir
row_to_session s r = record r {
  admin_style = or_empty (dir r.id s).admin_style;
  review_rules = or_empty (dir r.id s).review_rules;
  responder_profile = or_empty (dir r.id s).profile;
}

unfoldable pub find_session : Text → List Session → Option Session
find_session sid rows = find? (λ r. text_eq sid r.id) rows

abbrev pub load : {A : Type 0} → (Session → A) → Option Session → Option A
load f none = none
load f (some r) = some (f r)

unfoldable pub get_session : Text → Storage → Option Session
unfolding find_session
get_session sid s = load (row_to_session s) (find_session sid s.sessions)

abbrev pub later : Session → Option Session → Option Session
later r none = some r
later r (some q) = if text_lt r.started_at q.started_at then some q else some r

-- ORDER BY started_at DESC LIMIT 1, the first such row where several started together.
unfoldable pub latest : List Session → Option Session
latest [] = none
latest (r ∷ rows) = later r (latest rows)

unfoldable pub get_active_session_for : Text → Storage → Option Session
unfolding latest
get_active_session_for oid s = load (row_to_session s) (
    latest (
      filter (λ r. text_eq oid r.requester_oid && status_eq r.status SessionStatus.active)
        s.sessions))

-- `UPDATE sessions SET … WHERE id=?`: `f` sets the columns.
unfoldable pub update_session : Text → (Session → Session) → Storage → Storage
update_session sid f s = record s {
  sessions = map (λ r. if text_eq sid r.id then f r else r) s.sessions;
}
