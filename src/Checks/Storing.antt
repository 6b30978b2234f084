-- ===== src/Checks/Storing.antt =====
-- The theorems on the storage and the cursor, at concrete values.
use review_agent_v.Prelude.{txt, ℕ, List, arith, none, true, ◌≡◌, ◌≢◌, some, [], text_eq, refl, ◌∷◌}
use review_agent_v.Core.Cursor.{advance, is_in}
use review_agent_v.Core.Cursor.Dict.{to_dict, from_dict, from_dict-to_dict}
use review_agent_v.Core.Cursor.Conserve.{ids, is_in-ids-advance}
use review_agent_v.Core.Storage.Tables.{Storage}
use review_agent_v.Core.Storage.Sessions.{
  create_session, new_session, get_active_session_for, text_lt,
}
use review_agent_v.Core.Storage.Users.{get_user}
use review_agent_v.Core.Enums.{SessionStatus}
use review_agent_v.Core.Storage.Sessions.Listed.{
  head, list_sessions, get_active_session_for_is_first,
}
use review_agent_v.Util.Ids.{ulid}
use review_agent_v.Util.Ids.Sorted.{ulid_sorts_by_time}
use review_agent_v.Checks.Samples.{ann, asking, store}

from_dict-to_dict_example : from_dict (to_dict asking) ≡ asking
from_dict-to_dict_example = from_dict-to_dict asking

p2_named : txt "p2" ≢ []
p2_named h = cc

is_in-ids-advance_example : is_in (txt "p2") (ids (advance asking)) ≡ is_in (txt "p2") (ids asking)
is_in-ids-advance_example = is_in-ids-advance (txt "p2") asking p2_named

-- The store with the responder, and without sessions.
abbrev fresh : Storage
fresh = record store { users = ann ∷ record ann { open_id = txt "ou_bob" } ∷ []; sessions = [] }

ann_creates :
    (create_session
      (txt "s2")
      (txt "t1")
      (txt "ou_ann")
      (txt "ou_bob")
      (txt "kind")
      (txt "short")
      []
      fresh).1
    ≡ some (new_session (txt "s2") (txt "ou_ann") (txt "ou_bob") (txt "t1"))
unfolding create_session get_user text_eq
ann_creates = refl

get_active_session_for_is_first_example :
    get_active_session_for (txt "ou_ann") store
    ≡ head (list_sessions (some (txt "ou_ann")) none (some SessionStatus.active) store)
get_active_session_for_is_first_example = get_active_session_for_is_first 111 (txt "u_ann") store

abbrev high : List ℕ
high = 255 ∷ 255 ∷ 255 ∷ 255 ∷ 255 ∷ 255 ∷ 255 ∷ 255 ∷ 255 ∷ 255 ∷ []

abbrev low : List ℕ
low = 0 ∷ 0 ∷ 0 ∷ 0 ∷ 0 ∷ 0 ∷ 0 ∷ 0 ∷ 0 ∷ 1 ∷ []

ulid_sorts_by_time_example : text_lt (ulid 1700000000000 high) (ulid 1700000000001 low) ≡ true
ulid_sorts_by_time_example =
    ulid_sorts_by_time 1700000000000 1700000000001 high low (omega arith) (omega arith)
