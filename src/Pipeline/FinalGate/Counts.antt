-- ===== src/Pipeline/FinalGate/Counts.antt =====
-- The counts in verdict.json account for every finding.
use review_agent_v.Prelude.{Text, txt, ℕ, ◌+◌, ◌≤◌, List, [], ◌∷◌, ◌≡◌, arith, length}
use review_agent_v.Prelude.Json.{Fields, get}
use review_agent_v.Core.Models.{PillarCounts}
use review_agent_v.Pipeline.FinalGate.{
  zero_counts, add_finding, count_at, aggregate_from, aggregate_counts, text_or,
}

-- The totals of all pillars.
abbrev pub sum_totals : List (Text × PillarCounts) → ℕ
sum_totals [] = 0
sum_totals ((k, c) ∷ m) = c.total + sum_totals m

-- Nothing is counted twice in a pillar.
abbrev pub AreBounded : List (Text × PillarCounts) → Type 0
AreBounded [] = Unit
AreBounded ((k, c) ∷ m) = (c.pass + c.open_blocker + c.unresolvable ≤ c.total) × AreBounded m

add_finding_bounds :
    (f : Fields) (c : PillarCounts)
    → c.pass + c.open_blocker + c.unresolvable ≤ c.total
    → ((add_finding f c).total ≡ c.total + 1)
      × ((add_finding f c).pass + (add_finding f c).open_blocker + (add_finding f c).unresolvable
          ≤ (add_finding f c).total)
unfolding add_finding
add_finding_bounds f c h = (ground arith, ground arith)

count_at_bounds :
    (k : Text) (f : Fields) (m : List (Text × PillarCounts))
    → AreBounded m
    → (sum_totals (count_at zero_counts k (add_finding f) m) ≡ sum_totals m + 1)
      × AreBounded (count_at zero_counts k (add_finding f) m)
unfolding count_at
count_at_bounds k f [] h =
    let b = add_finding_bounds f zero_counts (omega arith) in (omega arith, (b.1, tt))
count_at_bounds k f ((j, c) ∷ m) h =
    let b = add_finding_bounds f c h.0 in let rest = count_at_bounds k f m h.1 in ground arith

aggregate_from_bounds :
    (m : List (Text × PillarCounts)) (fs : List Fields)
    → AreBounded m
    → (sum_totals (aggregate_from m fs) ≡ sum_totals m + length fs)
      × AreBounded (aggregate_from m fs)
unfolding aggregate_from
aggregate_from_bounds m [] h = (omega arith, h)
aggregate_from_bounds m (f ∷ fs) h =
    let k = text_or (txt "Unknown") (get "pillar" f) in
    let step = count_at_bounds k f m h in
    let rest = aggregate_from_bounds (count_at zero_counts k (add_finding f) m) fs step.1 in
    (omega arith, rest.1)

-- The totals of the pillars add up to the number of findings, and in each pillar those that pass,
-- the open blockers and the unresolvable ones are together at most the total.
pub aggregate_counts_account :
    (fs : List Fields)
    → (sum_totals (aggregate_counts fs) ≡ length fs) × AreBounded (aggregate_counts fs)
unfolding aggregate_counts
aggregate_counts_account fs = let b = aggregate_from_bounds [] fs tt in (omega arith, b.1)
