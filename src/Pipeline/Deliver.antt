-- ===== src/Pipeline/Deliver.antt =====
-- review_agent/pipeline/deliver.py and delivery_backends/*.py. What a backend calls over the network or
-- does to the archive is `send`: its n-th call gives a text (a message or document identifier) or
-- raises, `none`. The detail of a result that is ok, which nothing reads, is left out.
pub mod Backends
pub mod Once
pub mod Close
pub mod Targets
use review_agent_v.Prelude.{
  Text, txt, text_eq, ℕ, suc, Bool, true, false, not, ◌&&◌, Option, none, some, List, [], ◌∷◌, ◌++◌,
  all, take, any, filter, if◌then◌else◌,
}
use review_agent_v.Core.Enums.{Stage, SessionStatus}
use review_agent_v.Core.Models.{Session}
use review_agent_v.Core.Storage.Tables.{Storage, Dir, Outbound}
use review_agent_v.Core.Storage.Sessions.{dir, update_session}
use review_agent_v.Core.Storage.Audit.{log_outbound, outbound_already_sent}
use review_agent_v.Pipeline.Deliver.Backends.{
  Target, DeliveryResult, Backend, body_hash, attempt, Attempt, raised, result, or_text,
}

-- What delivery changes: the storage, and how many calls went out.
pub record Wire : Type 0 where
  pub storage : Storage
  pub sends : ℕ

-- The parameters: the configured backends, the hash, the network and the time.
pub record Setting : Type 0 where
  pub backends : Text → Option Backend
  pub sha256 : Text → Text
  pub send : ℕ → Option Text
  pub now : Text

abbrev pub is_true_text : Text → Bool
is_true_text [] = false
is_true_text (c ∷ s) = true

abbrev outbound_row :
    Setting → Session → Target → Text → Text → Option Text → Bool → Option Text → Outbound
outbound_row e s t to hash msg ok error = record {
  session_id = s.id;
  to_open_id = to;
  msg_type = t.backend;
  content_hash = hash;
  lark_msg_id = msg;
  ok = ok;
  error = error;
  created_at = e.now;
}

abbrev some_text : Text → Option Text
some_text [] = none
some_text (c ∷ s) = some (c ∷ s)

-- `error=None if result.ok else result.detail`
abbrev error_of : DeliveryResult → Option Text
error_of r = if r.ok then none else some r.detail

-- The end of `_deliver_one`, with the call made.
unfoldable pub finish : Setting → Session → Target → Text → Wire → Attempt → DeliveryResult × Wire
unfolding log_outbound or_text
finish e s t hash w (result r) = (
  r,
  record w {
    storage =
        log_outbound
          (outbound_row e s t (or_text t.open_id (or_text t.path (txt "-")))
            (or_text hash (txt "-")) (some_text r.lark_msg_id) r.ok (error_of r))
          w.storage;
  },
)
finish e s t hash w (raised message) = (
  record {
    backend = t.backend;
    ok = false;
    detail = take 500 message;
    lark_msg_id = [];
    doc_url = [];
  },
  record w {
    storage =
        log_outbound
          (outbound_row e s t (or_text t.open_id (or_text t.path (txt "-")))
            (or_text hash (txt "-")) none false (some (take 500 message)))
          w.storage;
  },
)

unfoldable pub deliver_with :
    Setting → Session → Target → Text → Backend → Wire → DeliveryResult × Wire
unfolding body_hash
deliver_with e s t doc_url b w =
    let files = dir s.id w.storage in
    let hash = body_hash e.sha256 b t files doc_url in
    if is_true_text hash
      && is_true_text t.open_id
      && outbound_already_sent s.id t.open_id hash w.storage
    then (
      record {
        backend = t.backend;
        ok = true;
        detail = txt "dedup hit";
        lark_msg_id = [];
        doc_url = [];
      },
      w,
    )
    else finish e s t hash (record w { sends = suc w.sends })
        (attempt b t files doc_url (e.send w.sends))

-- `_deliver_one`
unfoldable pub deliver_one : Setting → Session → Target → Text → Wire → DeliveryResult × Wire
unfolding log_outbound or_text
deliver_one e s t doc_url w = elim (e.backends t.backend) [
  | none ↦ (
    record {
      backend = t.backend;
      ok = false;
      detail = txt "no such backend";
      lark_msg_id = [];
      doc_url = [];
    },
    record w {
      storage =
          log_outbound
            (outbound_row e s t (or_text t.open_id t.path) (txt "-") none false
              (some (txt "missing backend")))
            w.storage;
    },
  )
  | some b ↦ deliver_with e s t doc_url b w
]

-- `if result.ok and result.doc_url: ctx["doc_url"] = result.doc_url`
abbrev pub next_url : DeliveryResult → Text → Text
next_url r doc_url = if r.ok && is_true_text r.doc_url then r.doc_url else doc_url

abbrev pub is_doc : Target → Bool
is_doc t = text_eq t.backend (txt "lark_doc")

-- The first loop, over the documents: the results, the address and the wire after it.
unfoldable pub deliver_docs :
    Setting → Session → List Target → Text → Wire → List DeliveryResult × Text × Wire
deliver_docs e s [] doc_url w = ([], doc_url, w)
deliver_docs e s (t ∷ ts) doc_url w =
    let (r, w') = deliver_one e s t doc_url w in
    let (rs, doc_url', w'') = deliver_docs e s ts (next_url r doc_url) w' in (r ∷ rs, doc_url', w'')

-- The second loop.
unfoldable pub deliver_rest :
    Setting → Session → List Target → Text → Wire → List DeliveryResult × Wire
deliver_rest e s [] doc_url w = ([], w)
deliver_rest e s (t ∷ ts) doc_url w =
    let (r, w') = deliver_one e s t doc_url w in
    let (rs, w'') = deliver_rest e s ts doc_url w' in (r ∷ rs, w'')

abbrev pub set_closing : Session → Session
set_closing r = record r { stage = Stage.closing }

abbrev pub set_closed : Text → Session → Session
set_closed now r = record r {
  status = SessionStatus.closed;
  stage = Stage.closed;
  closed_at = some now;
}

abbrev pub all_ok : List DeliveryResult → Bool
all_ok rs = all (λ r. r.ok) rs

-- deliver.run
unfoldable pub run : Setting → Session → List Target → Wire → List DeliveryResult × Wire
run e s targets w =
    let w0 = record w { storage = update_session s.id set_closing w.storage } in
    let (docs, doc_url, w1) = deliver_docs e s (filter is_doc targets) [] w0 in
    let (rest, w2) = deliver_rest e s (filter (λ t. not (is_doc t)) targets) doc_url w1 in
    let results = docs ++ rest in
    (
      results,
      if all_ok results
          then record w2 { storage = update_session s.id (set_closed e.now) w2.storage }
          else w2,
    )
