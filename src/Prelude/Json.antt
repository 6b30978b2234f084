-- ===== src/Prelude/Json.antt =====
-- What `json.loads` gives and `json.dumps` takes: null, booleans, integers, texts, lists and dicts.
-- Dicts keep their order of insertion. Numbers with a fraction are left out.
mod Defs
mod Laws
pub use Laws.*
unfoldable pub use Defs.*
