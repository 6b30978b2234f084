-- ===== src/Pipeline/Deliver/Once.antt =====
-- A delivery that succeeded is not made again on a retry, where its backend has a hash.
use review_agent_v.Prelude.{
  Text, text_eq, text_eq_iff, suc, true, some, [], ◌∷◌, ◌≡◌, refl, arith, any-append, ◌∙◌,
}
use review_agent_v.Core.Models.{Session}
use review_agent_v.Core.Storage.Tables.{Storage, Outbound}
use review_agent_v.Core.Storage.Sessions.{dir}
use review_agent_v.Core.Storage.Audit.{log_outbound, outbound_already_sent, is_sent}
use review_agent_v.Pipeline.Deliver.Backends.{
  Target, Backend, body_hash, attempt, Attempt, raised, result, or_text,
}
use review_agent_v.Pipeline.Deliver.{Wire, Setting, is_true_text, finish, deliver_with, deliver_one}

or_text_nonempty : (a b : Text) → is_true_text a ≡ true → or_text a b ≡ a
unfolding or_text
or_text_nonempty [] b h = cc
or_text_nonempty (c ∷ a) b h = refl

self : (t : Text) → text_eq t t ≡ true
self t = (text_eq_iff t t).1 refl

sent_after :
    (sid to hash : Text) (o : Outbound) (s : Storage)
    → is_sent sid to hash o ≡ true
    → outbound_already_sent sid to hash (log_outbound o s) ≡ true
unfolding outbound_already_sent log_outbound
sent_after sid to hash o s h = any-append (is_sent sid to hash) s.outbound (o ∷ []) ∙ ground arith

-- A successful end leaves a row by which the delivery is known.
finish_logs :
    (e : Setting) (s : Session) (t : Target) (hash : Text) (w : Wire) (a : Attempt)
    → is_true_text hash ≡ true
    → is_true_text t.open_id ≡ true
    → (finish e s t hash w a).0.ok ≡ true
    → outbound_already_sent s.id t.open_id hash (finish e s t hash w a).1.storage ≡ true
unfolding finish
finish_logs e s t hash w (raised message) h o k = cc
finish_logs e s t hash w (result r) h o k = sent_after s.id t.open_id hash _ w.storage (
    rw
      (
        or_text_nonempty t.open_id _ o,
        or_text_nonempty hash _ h,
        self s.id,
        self t.open_id,
        self hash,
      )
      k)

dir-finish :
    (e : Setting) (s : Session) (t : Target) (hash : Text) (w : Wire) (a : Attempt)
    → dir s.id (finish e s t hash w a).1.storage ≡ dir s.id w.storage
unfolding finish log_outbound dir
dir-finish e s t hash w (raised message) = refl
dir-finish e s t hash w (result r) = refl

abbrev hash_at : Setting → Session → Target → Text → Backend → Wire → Text
hash_at e s t doc_url b w = body_hash e.sha256 b t (dir s.id w.storage) doc_url

-- A delivery that was ok is known, and leaves the files as they are.
deliver_with_logs :
    (e : Setting) (s : Session) (t : Target) (doc_url : Text) (b : Backend) (w : Wire)
    → is_true_text (hash_at e s t doc_url b w) ≡ true
    → is_true_text t.open_id ≡ true
    → (deliver_with e s t doc_url b w).0.ok ≡ true
    → (outbound_already_sent s.id t.open_id
          (hash_at e s t doc_url b w)
          (deliver_with e s t doc_url b w).1.storage
        ≡ true)
      × (dir s.id (deliver_with e s t doc_url b w).1.storage ≡ dir s.id w.storage)
unfolding deliver_with
deliver_with_logs e s t doc_url b w h o k =
    let hash = hash_at e s t doc_url b w in
    let w' = record w { sends = suc w.sends } in
    let a = attempt b t (dir s.id w.storage) doc_url (e.send w.sends) in
    ground (arith, finish_logs e s t hash w' a h o, dir-finish e s t hash w' a)

-- A delivery that is known is not made.
deliver_with_known :
    (e : Setting) (s : Session) (t : Target) (doc_url : Text) (b : Backend) (w : Wire)
    → is_true_text (hash_at e s t doc_url b w) ≡ true
    → is_true_text t.open_id ≡ true
    → outbound_already_sent s.id t.open_id (hash_at e s t doc_url b w) w.storage ≡ true
    → ((deliver_with e s t doc_url b w).0.ok ≡ true) × ((deliver_with e s t doc_url b w).1 ≡ w)
unfolding deliver_with
deliver_with_known e s t doc_url b w h o k = ground arith

deliver_one_found :
    (e : Setting) (s : Session) (t : Target) (doc_url : Text) (b : Backend) (w : Wire)
    → e.backends t.backend ≡ some b
    → deliver_one e s t doc_url w ≡ deliver_with e s t doc_url b w
unfolding deliver_one
deliver_one_found e s t doc_url b w be = rw (be, deliver_one)

redelivery_with :
    (e : Setting) (s : Session) (t : Target) (doc_url : Text) (b : Backend) (w w' : Wire)
    → is_true_text (hash_at e s t doc_url b w) ≡ true
    → is_true_text t.open_id ≡ true
    → (outbound_already_sent s.id t.open_id (hash_at e s t doc_url b w) w'.storage ≡ true)
      × (dir s.id w'.storage ≡ dir s.id w.storage)
    → ((deliver_with e s t doc_url b w').0.ok ≡ true) × ((deliver_with e s t doc_url b w').1 ≡ w')
redelivery_with e s t doc_url b w w' h o (sent, same) =
    deliver_with_known e s t doc_url b w' (rw same h) o (rw same sent)

-- Where the backend of a target has a hash and the target an open_id, a delivery that was ok is
-- not made again by a second call with the same document address: that call is ok, sends nothing
-- and leaves the storage as it is.
pub redelivery_sends_nothing :
    (e : Setting) (s : Session) (t : Target) (doc_url : Text) (b : Backend) (w : Wire)
    → e.backends t.backend ≡ some b
    → is_true_text (body_hash e.sha256 b t (dir s.id w.storage) doc_url) ≡ true
    → is_true_text t.open_id ≡ true
    → (deliver_one e s t doc_url w).0.ok ≡ true
    → ((deliver_one e s t doc_url (deliver_one e s t doc_url w).1).0.ok ≡ true)
      × ((deliver_one e s t doc_url (deliver_one e s t doc_url w).1).1
          ≡ (deliver_one e s t doc_url w).1)
redelivery_sends_nothing e s t doc_url b w be h o k =
    let once = deliver_one_found e s t doc_url b w be in
    let known = deliver_with_logs e s t doc_url b w h o (rw once at k) in
    rw (once, deliver_one_found e s t doc_url b (deliver_with e s t doc_url b w).1 be)
      (redelivery_with e s t doc_url b w (deliver_with e s t doc_url b w).1 h o known)
