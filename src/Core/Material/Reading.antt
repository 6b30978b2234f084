-- ===== src/Core/Material/Reading.antt =====
-- Actions that may end with IngestRejected, and what they read from outside.
pub mod Keeps
use review_agent_v.Prelude.{Text, ℕ, Bool, Option, none, some, []}
use review_agent_v.Core.Storage.Tables.{Dir}
use review_agent_v.Core.Dispatcher.World.{
  Env, World, Act, Outcome, exception, Notice, safe_dm, on_files, now,
}
use review_agent_v.Pipeline.Ingest.Result.{Ingest, accepted, rejected, raised}
use review_agent_v.Pipeline.Ingest.Fetch.{Web}
use review_agent_v.Pipeline.Ingest.Files.{Tools, Bytes}

-- What the dispatcher was built with, and what the platform gives: an attachment by message, key and
-- kind, where it can be downloaded.
pub record Desk : Type 0 where
  pub env : Env
  pub web : Web
  pub tools : Tools
  pub download : (message_id file_key kind : Text) → Option Bytes
  pub session_id : ℕ → Text
  pub admin_style : Text
  pub review_rules : Text
  pub profile_for : Text → Text
  pub auto_register : Bool
  pub display_name : Text → Option Text

abbrev pub Reading : Type 0 → Type 0
Reading A = World → Ingest A × World

module _ {A B : Type 0} where
  abbrev pub read_on : Ingest A → (A → Reading B) → Reading B
  read_on (accepted a) f w = f a w
  read_on (rejected m) f w = (rejected m, w)
  read_on (raised m) f w = (raised m, w)

  infixl 5 ◌>>=◌ ◌>>◌
  abbrev pub ◌>>=◌ : Reading A → (A → Reading B) → Reading B
  ◌>>=◌ m f w = let (r, w') = m w in read_on r f w'

  abbrev pub ◌>>◌ : Reading A → Reading B → Reading B
  m >> n = m >>= λ _. n

module _ {A : Type 0} where
  abbrev pub read : A → Reading A
  read a w = (accepted a, w)

  abbrev pub reading : Ingest A → Reading A
  reading r w = (r, w)

  -- A value whose lack is another exception.
  abbrev pub required : Option A → Reading A
  required none w = (raised [], w)
  required (some a) w = (accepted a, w)

abbrev pub tell : Text → Notice → Reading (Unit {0})
tell to notice w = (accepted tt, (safe_dm to notice w).1)

-- now_iso()
abbrev pub time : Env → Reading Text
time e w = (accepted (e.clock w.ticks), (now e w).1)

abbrev with_normalized : Text → Dir → Dir
with_normalized t d = record d { normalized = some t }

-- Writes normalized.md.
abbrev pub write_normalized : (sid : Text) → Text → Act (Unit {0})
write_normalized sid t = on_files sid (with_normalized t)

abbrev pub written : (sid : Text) → Text → Reading (Unit {0})
written sid t w = (accepted tt, (write_normalized sid t w).1)

module _ {A B : Type 0} where
  abbrev pub settle_read : Ingest A × World → (Text → Act B) → (A → Act B) → Outcome B × World
  settle_read (accepted a, w) refuse use_it = use_it a w
  settle_read (rejected m, w) refuse use_it = refuse m w
  settle_read (raised m, w) refuse use_it = (exception, w)

  -- `try: body` / `except IngestRejected as e: refuse(e.user_message)`
  abbrev pub try_read : Reading A → (Text → Act B) → (A → Act B) → Act B
  try_read body refuse use_it w = settle_read (body w) refuse use_it
