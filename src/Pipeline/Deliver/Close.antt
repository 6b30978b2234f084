-- ===== src/Pipeline/Deliver/Close.antt =====
-- When a session is closed.
use review_agent_v.Prelude.{
  Text, text_eq, suc, ◌+◌, Bool, true, false, not, List, [], ◌∷◌, ◌++◌, map, filter, length,
  length-append, ◌≡◌, refl, arith, inl, inr, if◌then◌else◌, ap, ◌∙◌, Option-cases,
}
use review_agent_v.Core.Models.{Session}
use review_agent_v.Core.Storage.Sessions.{dir, update_session}
use review_agent_v.Core.Storage.Audit.{log_outbound}
use review_agent_v.Pipeline.Deliver.Backends.{
  Target, Backend, attempt, Attempt, raised, result, body_hash,
}
use review_agent_v.Pipeline.Deliver.{
  Wire, Setting, finish, deliver_with, deliver_one, deliver_docs, deliver_rest, run, set_closing,
  set_closed, all_ok, is_doc, next_url,
}

sessions-finish :
    (e : Setting) (s : Session) (t : Target) (hash : Text) (w : Wire) (a : Attempt)
    → (finish e s t hash w a).1.storage.sessions ≡ w.storage.sessions
unfolding finish log_outbound
sessions-finish e s t hash w (raised message) = refl
sessions-finish e s t hash w (result r) = refl

sessions-deliver_with :
    (e : Setting) (s : Session) (t : Target) (doc_url : Text) (b : Backend) (w : Wire)
    → (deliver_with e s t doc_url b w).1.storage.sessions ≡ w.storage.sessions
unfolding deliver_with
sessions-deliver_with e s t doc_url b w =
    let hash = body_hash e.sha256 b t (dir s.id w.storage) doc_url in
    ground (
      arith,
      sessions-finish e s t hash (record w { sends = suc w.sends })
          (attempt b t (dir s.id w.storage) doc_url (e.send w.sends)),
    )

sessions-deliver_one :
    (e : Setting) (s : Session) (t : Target) (doc_url : Text) (w : Wire)
    → (deliver_one e s t doc_url w).1.storage.sessions ≡ w.storage.sessions
unfolding deliver_one log_outbound
sessions-deliver_one e s t doc_url w = elim (Option-cases (e.backends t.backend)) [
  | inl absent ↦ rw (absent, deliver_one)
  | inr (b, there) ↦ rw (there, deliver_one) (sessions-deliver_with e s t doc_url b w)
]

sessions-deliver_docs :
    (e : Setting) (s : Session) (ts : List Target) (doc_url : Text) (w : Wire)
    → ((deliver_docs e s ts doc_url w).2.storage.sessions ≡ w.storage.sessions)
      × (length (deliver_docs e s ts doc_url w).0 ≡ length ts)
unfolding deliver_docs
sessions-deliver_docs e s [] doc_url w = (refl, refl)
sessions-deliver_docs e s (t ∷ ts) doc_url w =
    let (r, w') = deliver_one e s t doc_url w in
    let ih = sessions-deliver_docs e s ts (next_url r doc_url) w' in
    (ih.0 ∙ sessions-deliver_one e s t doc_url w, ap suc ih.1)

sessions-deliver_rest :
    (e : Setting) (s : Session) (ts : List Target) (doc_url : Text) (w : Wire)
    → ((deliver_rest e s ts doc_url w).1.storage.sessions ≡ w.storage.sessions)
      × (length (deliver_rest e s ts doc_url w).0 ≡ length ts)
unfolding deliver_rest
sessions-deliver_rest e s [] doc_url w = (refl, refl)
sessions-deliver_rest e s (t ∷ ts) doc_url w =
    let (r, w') = deliver_one e s t doc_url w in
    let ih = sessions-deliver_rest e s ts doc_url w' in
    (ih.0 ∙ sessions-deliver_one e s t doc_url w, ap suc ih.1)

length-filter :
    (p : Target → Bool) (ts : List Target)
    → length (filter p ts) + length (filter (λ t. not (p t)) ts) ≡ length ts
length-filter p [] = omega arith
length-filter p (t ∷ ts) = ground (arith, length-filter p ts)

-- The rows of the session after a delivery.
abbrev pub on_rows : Text → (Session → Session) → List Session → List Session
on_rows sid f rows = map (λ r. if text_eq sid r.id then f r else r) rows

sessions-closed :
    (e : Setting) (s : Session) (b : Bool) (w : Wire)
    → (if b
        then record w { storage = update_session s.id (set_closed e.now) w.storage }
        else w).storage.sessions
      ≡ (if b then on_rows s.id (set_closed e.now) w.storage.sessions else w.storage.sessions)
unfolding update_session
sessions-closed e s true w = refl
sessions-closed e s false w = refl

-- A delivery makes one attempt for each target, and closes the session exactly when every result
-- is ok; otherwise the session stays at CLOSING, its status as it was.
pub closed_iff_all_ok :
    (e : Setting) (s : Session) (ts : List Target) (w : Wire)
    → (length (run e s ts w).0 ≡ length ts)
      × ((run e s ts w).1.storage.sessions ≡ (
          if all_ok (run e s ts w).0
          then on_rows s.id (set_closed e.now) (on_rows s.id set_closing w.storage.sessions)
          else on_rows s.id set_closing w.storage.sessions))
unfolding run update_session
closed_iff_all_ok e s ts w =
    let w0 = record w { storage = update_session s.id set_closing w.storage } in
    let (docs, doc_url, w1) = deliver_docs e s (filter is_doc ts) [] w0 in
    let (rest, w2) = deliver_rest e s (filter (λ t. not (is_doc t)) ts) doc_url w1 in
    let d = sessions-deliver_docs e s (filter is_doc ts) [] w0 in
    let r = sessions-deliver_rest e s (filter (λ t. not (is_doc t)) ts) doc_url w1 in
    let close = λ (l : List Session).
      if all_ok (docs ++ rest) then on_rows s.id (set_closed e.now) l else l in
    (
      omega (arith, length-append {0} docs rest, d.1, r.1, length-filter is_doc ts),
      sessions-closed e s (all_ok (docs ++ rest)) w2 ∙ ap close (r.0 ∙ d.0),
    )
