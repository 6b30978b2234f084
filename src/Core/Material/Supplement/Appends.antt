-- ===== src/Core/Material/Supplement/Appends.antt =====
-- A supplement in words or by links is written behind what is there.
use review_agent_v.Prelude.{
  Text, text_eq, Bool, true, false, ◌&&◌, Option, some, [], ◌++◌, ◌||◌, ◌⊎◌, contains, strip,
  rstrip, ◌≡◌,
}
use review_agent_v.Core.Storage.Tables.{Dir}
use review_agent_v.Core.Storage.Sessions.{dir}
use review_agent_v.Core.Dispatcher.World.{World}
use review_agent_v.Core.Material.Supplement.{supplement_mark, is_blank}
use review_agent_v.Lark.Message.{IncomingMessage}
use review_agent_v.Pipeline.Ingest.Result.{Ingest, accepted, rejected, raised}

abbrev pub normalized_of : (sid : Text) → World → Option Text
normalized_of sid w = (dir sid w.storage).normalized

-- The text with the block behind it.
abbrev pub IsLonger : (block before : Text) → Option Text → Type 0
IsLonger block before after = after ≡ some (rstrip before ++ supplement_mark ++ block)

-- There is nothing in the block that the text has not.
abbrev pub is_known : (block before : Text) → Bool
is_known block before = is_blank block || contains before (strip block)

-- `nothing` says that the message has neither words nor a file, `r` is what is read of it.
abbrev pub IsAppended :
    (sid before : Text) → (nothing : Bool) → (r : Ingest Text) → Ingest Bool × World → Type 0
IsAppended sid before nothing r (accepted true, w) =
    (block : Text) × (r ≡ accepted block)
    × (is_known block before ≡ false)
    × IsLonger block before (normalized_of sid w)
IsAppended sid before nothing r (accepted false, w) =
    (normalized_of sid w ≡ some before)
    × ((nothing ≡ true) ⊎ ((block : Text) × (r ≡ accepted block) × (is_known block before ≡ true)))
IsAppended sid before nothing r (rejected m, w) =
    (normalized_of sid w ≡ some before) × (r ≡ rejected m)
IsAppended sid before nothing r (raised m, w) = ⊥

abbrev IsBlockAppended : (block before : Text) → Bool × Dir → Type 0
IsBlockAppended block before (true, d) =
    (is_known block before ≡ false) × IsLonger block before d.normalized
IsBlockAppended block before (false, d) =
    (d.normalized ≡ some before) × (is_known block before ≡ true)

abbrev NotRaised : Ingest Text → Type 0
NotRaised (raised m) = ⊥
NotRaised _ = Unit {0}

-- The message has neither words nor a file.
abbrev pub is_empty_message : IncomingMessage → Bool
is_empty_message msg = text_eq (strip msg.content_text) [] && text_eq msg.file_key []
