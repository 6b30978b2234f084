-- ===== src/Core/Material/Reading/Keeps.antt =====
-- Reading material changes no row of the table `sessions`.
use review_agent_v.Prelude.{Text, txt, Option, none, some, List, ◌≡◌, refl, ◌∙◌}
use review_agent_v.Core.Models.{Session}
use review_agent_v.Core.Dispatcher.World.{World}
use review_agent_v.Core.Material.Reading.{Desk, Reading, ◌>>=◌, read_on, required, written}
use review_agent_v.Core.Material.Intake.{
  save_and_ingest, ingest_into, ingest_attachment, ingest_document, file_or_refuse, guess_ext,
  ingest_as, holds, Holds, words, attachment, document, something_else,
}
use review_agent_v.Core.Storage.Sessions.{on_dir}
use review_agent_v.Core.Material.Supplement.{without_colons}
use review_agent_v.Lark.Message.{IncomingMessage}
use review_agent_v.Pipeline.Ingest.Result.{Ingest, accepted, rejected, raised}

abbrev pub rows : World → List Session
rows w = w.storage.sessions

abbrev pub KeepsRows : {A : Type 0} → Reading A → Type 0
KeepsRows m = (w : World) → rows (m w).1 ≡ rows w

KeepsRows-read_on :
    {A B : Type 0} (r : Ingest A × World) (f : A → Reading B) (w : World)
    → rows r.1 ≡ rows w
    → ((a : A) → KeepsRows (f a))
    → rows (read_on r.0 f r.1).1 ≡ rows w
KeepsRows-read_on (accepted a, v) f w h k = k a v ∙ h
KeepsRows-read_on (rejected m, v) f w h k = h
KeepsRows-read_on (raised m, v) f w h k = h

KeepsRows-bind :
    {A B : Type 0} (m : Reading A) (f : A → Reading B)
    → KeepsRows m
    → ((a : A) → KeepsRows (f a))
    → KeepsRows (m >>= f)
KeepsRows-bind m f h k w = KeepsRows-read_on (m w) f w (h w) k

KeepsRows-required : {A : Type 0} (o : Option A) → KeepsRows (required o)
KeepsRows-required none w = refl
KeepsRows-required (some a) w = refl

KeepsRows-written : (sid t : Text) → KeepsRows (written sid t)
unfolding on_dir
KeepsRows-written sid t w = refl

module _ (desk : Desk) where
  KeepsRows-ingest_into : (sid : Text) (r : Ingest Text) → KeepsRows (ingest_into desk sid r)
  KeepsRows-ingest_into sid (accepted t) w = KeepsRows-written sid t w
  KeepsRows-ingest_into sid (rejected m) w = refl
  KeepsRows-ingest_into sid (raised m) w = refl

  KeepsRows-file_or_refuse :
      (oid sid ext : Text) (r : Ingest Text) → KeepsRows (file_or_refuse desk oid sid ext r)
  KeepsRows-file_or_refuse oid sid ext (accepted t) w = KeepsRows-written sid t w
  KeepsRows-file_or_refuse oid sid ext (rejected m) w = refl
  KeepsRows-file_or_refuse oid sid ext (raised m) w = refl

  KeepsRows-ingest_attachment :
      (s : Session) (msg : IncomingMessage) (iso : Text)
      → KeepsRows (ingest_attachment desk s msg iso)
  unfolding ingest_attachment
  KeepsRows-ingest_attachment s msg iso =
      KeepsRows-bind (required (desk.download msg.message_id msg.file_key msg.msg_type)) _
        (KeepsRows-required _) λ raw. KeepsRows-ingest_into s.id _

  KeepsRows-ingest_document :
      (oid : Text) (s : Session) (msg : IncomingMessage) (iso : Text)
      → KeepsRows (ingest_document desk oid s msg iso)
  unfolding ingest_document
  KeepsRows-ingest_document oid s msg iso =
      KeepsRows-bind (required (desk.download msg.message_id msg.file_key (txt "file"))) _
        (KeepsRows-required _)
        λ raw.
          KeepsRows-bind (required (guess_ext desk.env.loads msg.content_raw)) _
            (KeepsRows-required _) λ guessed. KeepsRows-file_or_refuse oid s.id _ _

  KeepsRows-ingest_as :
      (oid : Text) (s : Session) (msg : IncomingMessage) (iso : Text) (h : Holds)
      → KeepsRows (ingest_as desk oid s msg iso h)
  unfolding ingest_as
  KeepsRows-ingest_as oid s msg iso words w = KeepsRows-ingest_into s.id _ w
  KeepsRows-ingest_as oid s msg iso attachment w = KeepsRows-ingest_attachment s msg iso w
  KeepsRows-ingest_as oid s msg iso document w = KeepsRows-ingest_document oid s msg iso w
  KeepsRows-ingest_as oid s msg iso something_else w = refl

  pub KeepsRows-save_and_ingest :
      (oid : Text) (s : Session) (msg : IncomingMessage)
      → KeepsRows (save_and_ingest desk oid s msg)
  unfolding save_and_ingest
  KeepsRows-save_and_ingest oid s msg w =
      KeepsRows-ingest_as oid s msg (without_colons (desk.env.clock w.ticks)) (holds msg) _
