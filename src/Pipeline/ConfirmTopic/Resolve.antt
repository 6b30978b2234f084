-- ===== src/Pipeline/ConfirmTopic/Resolve.antt =====
-- What a reply does to the storage while the subject is being confirmed.
use mathlib.Core.Path.{subst}
use review_agent_v.Prelude.{
  Text, ◌≤◌, ◌<◌, ◌≡◌, Option, none, some, map, text_eq, length, refl, if◌then◌else◌,
}
use review_agent_v.Core.Enums.{Intent}
use review_agent_v.Core.Models.{Session}
use review_agent_v.Core.Storage.Tables.{Storage}
use review_agent_v.Core.Storage.Sessions.{on_dir, update_session}
use review_agent_v.Pipeline.ConfirmTopic.{
  Pick, crash, nothing, picked, choose, subject_reply, with_subject,
}
use review_agent_v.Pipeline.ConfirmTopic.Label.{length-trim_subject}

-- A label that is stored is short and not empty, and the session's rows get it and go to the scan.
abbrev pub IsChosen : Session → Storage → Storage → Text → Type 0
IsChosen session s s' label =
    (0 < length label)
    × (length label ≤ 60)
    × (s'.sessions
        ≡ map (λ r. if text_eq session.id r.id then with_subject label r else r) s.sessions)

abbrev Chosen : Session → Storage → Option (Intent × Option Text) × Storage → Type 0
Chosen session s (none, s') = s' ≡ s
Chosen session s (some (intent, none), s') = s' ≡ s
Chosen session s (some (intent, some label), s') = IsChosen session s s' label

choose-Chosen :
    (intent : Intent) (logged reply : Text) (session : Session) (p : Pick) (s : Storage)
    → Chosen session s (choose intent logged reply session p s)
unfolding choose update_session on_dir
choose-Chosen intent logged reply session crash s = refl
choose-Chosen intent logged reply session nothing s = refl
choose-Chosen intent logged reply session (picked t) s =
    ((length-trim_subject t).0, (length-trim_subject t).1, refl)

subject_reply-Chosen :
    (lower : Text → Text) (logged reply : Text) (session : Session) (s : Storage)
    → Chosen session s (subject_reply lower logged reply session s)
unfolding subject_reply
subject_reply-Chosen lower logged reply session s = choose-Chosen _ logged reply session _ s

-- A reply at the confirmation of the subject that raises or chooses nothing leaves the storage as
-- it is; one that chooses stores a label of one to 60 characters in the rows of the session and
-- sends them to the scan, and no other rows.
pub subject_reply_cases :
    (lower : Text → Text) (logged reply : Text) (session : Session) (s : Storage)
    → ((subject_reply lower logged reply session s).0 ≡ none
        → (subject_reply lower logged reply session s).1 ≡ s)
      × ((intent : Intent)
          → (subject_reply lower logged reply session s).0 ≡ some (intent, none)
          → (subject_reply lower logged reply session s).1 ≡ s)
      × ((intent : Intent) (label : Text)
          → (subject_reply lower logged reply session s).0 ≡ some (intent, some label)
          → IsChosen session s (subject_reply lower logged reply session s).1 label)
subject_reply_cases lower logged reply session s =
    let s' = (subject_reply lower logged reply session s).1 in
    let c = subject_reply-Chosen lower logged reply session s in
    (
      λ h. subst (λ r. Chosen session s (r, s')) h c,
      λ intent h. subst (λ r. Chosen session s (r, s')) h c,
      λ intent label h. subst (λ r. Chosen session s (r, s')) h c,
    )
