-- ===== src/Core/Material/Supplement/Replaces.antt =====
-- A supplement by an attachment is written over what was there.
use review_agent_v.Core.Material.Reading.{written, Desk}
use review_agent_v.Core.Storage.Sessions.Lookup.{dir-on_dir}
use review_agent_v.Core.Material.Supplement.{
  on_dir, attachment_ext, IncomingMessage, without_colons, dir, Session, append_block,
  added_download, added_file, supplement_file, append_to_normalized, put_merged, merged, is_blank,
}
use mathlib.Core.Path.{subst}
use review_agent_v.Prelude.{
  Text, txt, Bool, true, false, Option, none, some, ◌++◌, strip, ◌≡◌, refl, sym, ap, ◌∙◌, ◌⊎◌, inl,
  inr, Bool-cases,
}
use review_agent_v.Prelude.Parts.{strip-IsPart, IsPart-contains}
use review_agent_v.Core.Storage.Tables.{Dir}
use review_agent_v.Core.Dispatcher.World.{World}
use review_agent_v.Core.Material.Supplement.Appends.{normalized_of}
use review_agent_v.Pipeline.Ingest.Result.{Ingest, accepted, rejected, raised}
use review_agent_v.Pipeline.Ingest.Files.{Bytes, run_pipeline}

merged_again : (t : Text) → merged false t (some t) ≡ none
merged_again t = rw (IsPart-contains (strip t) t (strip-IsPart t)) refl

-- Appending what is there already changes nothing.
append_again :
    (t : Text) (d : Dir) → d.normalized ≡ some t → append_to_normalized false t d ≡ (false, d)
unfolding append_to_normalized
append_again t d h = elim (Bool-cases (is_blank t)) [
  | inl blank ↦ rw blank refl
  | inr words ↦
      rw words
        (ap (λ o. put_merged (merged false t o) d) h ∙ ap (λ o. put_merged o d) (merged_again t))
]

abbrev pub IsReplaced :
    Desk → (sid : Text) → (before : Option Text) → Option Bytes → Ingest Bool × World → Type 0
IsReplaced desk sid before raw (accepted true, w) = ⊥
IsReplaced desk sid before raw (accepted false, w) =
    (normalized_of sid w ≡ before)
    ⊎ ((name : Text) × (file : Bytes) × (t : Text) × (raw ≡ some file)
        × (run_pipeline desk.web desk.tools name file ≡ accepted t)
        × (normalized_of sid w ≡ some t))
IsReplaced desk sid before raw (rejected m, w) = normalized_of sid w ≡ before
IsReplaced desk sid before raw (raised m, w) = ⊥

append_block_again :
    (sid t : Text) (w : World)
    → normalized_of sid w ≡ some t
    → ((append_block sid t w).0 ≡ accepted false)
      × (normalized_of sid (append_block sid t w).1 ≡ some t)
append_block_again sid t w h =
    let e = append_again t (dir sid w.storage) h in
    (
      ap (λ (r : Bool × Dir). accepted r.0) e,
      ap (λ (r : Bool × Dir). (dir sid (on_dir sid (λ _. r.1) w.storage)).normalized) e
          ∙ ap (λ (d : Dir). d.normalized) (dir-on_dir sid (λ _. dir sid w.storage) w.storage)
          ∙ h,
    )

IsReplaced-of :
    (desk : Desk) (sid : Text) (before : Option Text) (file : Bytes) (name t : Text)
    (res : Ingest Bool × World)
    → run_pipeline desk.web desk.tools name file ≡ accepted t
    → (res.0 ≡ accepted false) × (normalized_of sid res.1 ≡ some t)
    → IsReplaced desk sid before (some file) res
IsReplaced-of desk sid before file name t (r, w) e (a, n) =
    subst (λ (x : Ingest Bool). IsReplaced desk sid before (some file) (x, w)) (sym a)
      (inr (name, file, t, refl, e, n))

added_file-IsReplaced :
    (desk : Desk) (sid : Text) (file : Bytes) (name : Text) (r : Ingest Text) (w : World)
    → run_pipeline desk.web desk.tools name file ≡ r
    → IsReplaced desk sid (normalized_of sid w) (some file) (added_file sid r w)
added_file-IsReplaced desk sid file name (rejected m) w e = refl
added_file-IsReplaced desk sid file name (raised m) w e = inl refl
added_file-IsReplaced desk sid file name (accepted t) w e =
    IsReplaced-of desk sid (normalized_of sid w) file name t _ e (
      append_block_again sid t (written sid t w).1 (
        ap (λ (d : Dir). d.normalized)
          (dir-on_dir sid (λ d. record d { normalized = some t }) w.storage)))

added_download-IsReplaced :
    (desk : Desk) (sid kind : Text) (raw : Option Bytes) (w : World)
    → IsReplaced desk sid (normalized_of sid w) raw (added_download desk sid kind raw w)
added_download-IsReplaced desk sid kind none w = inl refl
added_download-IsReplaced desk sid kind (some file) w =
    added_file-IsReplaced desk sid file
      (without_colons (desk.env.clock w.ticks) ++ txt "_supplement" ++ attachment_ext kind file) _ _
      refl

-- A supplement by an attachment never counts as added. It leaves normalized.md as it was, or the
-- attachment was downloaded and read, and the file then holds the text that was read and nothing
-- else.
pub supplement_file-IsReplaced :
    (desk : Desk) (s : Session) (msg : IncomingMessage) (w : World)
    → IsReplaced desk s.id
        (normalized_of s.id w)
        (desk.download msg.message_id msg.file_key msg.msg_type)
        (supplement_file desk s msg w)
unfolding supplement_file
supplement_file-IsReplaced desk s msg w =
    added_download-IsReplaced desk s.id msg.msg_type
      (desk.download msg.message_id msg.file_key msg.msg_type) w
