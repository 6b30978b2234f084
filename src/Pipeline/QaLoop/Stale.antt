-- ===== src/Pipeline/QaLoop/Stale.antt =====
-- Which row is found to the requester when two rows have one identifier.
use review_agent_v.Prelude.{Text, List, [], ◌∷◌, ◌++◌, ◌≡◌, ◌≢◌, refl, arith}
use review_agent_v.Prelude.Json.{Fields}
use review_agent_v.Pipeline.QaLoop.{nothing, find_row}

-- A row found before is found still, whatever is appended.
pub find_row-append :
    (fid : Text) (rows more : List Fields)
    → find_row fid rows ≢ nothing
    → find_row fid (rows ++ more) ≡ find_row fid rows
unfolding find_row
find_row-append fid [] more h = absurd (h refl)
find_row-append fid (row ∷ rows) more h = ground (arith, find_row-append fid rows more)
