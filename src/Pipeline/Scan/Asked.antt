-- ===== src/Pipeline/Scan/Asked.antt =====
-- What a scan leaves in the files: the cursor, the rows, and the row that is asked first.
use mathlib.Core.List.{append-nil, append_assoc, Perm}
use review_agent_v.Prelude.Json.{Fields}
use review_agent_v.Prelude.{
  Text, Option-cases, inl, inr, true, all, ℕ, suc, zero, ◌≤◌, some, List, [], ◌∷◌, ◌++◌, map, ◌≡◌,
  ◌≢◌, refl, ap, sym, ◌∙◌, All, take, drop,
}
use review_agent_v.Core.Models.{Finding, to_jsonl}
use review_agent_v.Core.Cursor.{Cursor}
use review_agent_v.Core.Cursor.Conserve.{current}
use review_agent_v.Core.Storage.Tables.{Dir}
use review_agent_v.Core.Storage.Findings.{
  rows_of, read_rows, is_one_line, read_rows_same, read_rows-append, save_cursor, load_findings,
  load_cursor, load_cursor-save_cursor, append_finding,
}
use review_agent_v.Pipeline.QaLoop.{nothing, find_row, find_in, emit_row}
use review_agent_v.Pipeline.QaLoop.Stale.{find_row-append}
use review_agent_v.Pipeline.Scan.{
  sev_order, sort_by_key, finding_ids, prioritize, scan_cursor, append_findings, scan_dir,
}
use review_agent_v.Pipeline.Scan.Order.{IsSorted, sort_by_key-IsSorted, sort_by_key-perm}

map-take : (n : ℕ) (fs : List Finding) → take n (finding_ids fs) ≡ finding_ids (take n fs)
map-take zero fs = refl
map-take (suc n) [] = refl
map-take (suc n) (f ∷ fs) = ap (λ l. f.id ∷ l) (map-take n fs)

map-drop : (n : ℕ) (fs : List Finding) → drop n (finding_ids fs) ≡ finding_ids (drop n fs)
map-drop zero fs = refl
map-drop (suc n) [] = refl
map-drop (suc n) (f ∷ fs) = map-drop n fs

-- The findings of a cursor that are asked: the current one and those pending.
abbrev pub asked : Cursor → List Text
asked c = current c.current_id ++ c.pending

asked-scan_cursor : (n : ℕ) (xs : List Text) → asked (scan_cursor n xs) ≡ take n xs
unfolding scan_cursor
asked-scan_cursor zero xs = refl
asked-scan_cursor (suc n) [] = refl
asked-scan_cursor (suc n) (x ∷ xs) = refl

deferred-scan_cursor : (n : ℕ) (xs : List Text) → (scan_cursor n xs).deferred ≡ drop n xs
unfolding scan_cursor
deferred-scan_cursor zero xs = refl
deferred-scan_cursor (suc n) [] = refl
deferred-scan_cursor (suc n) (x ∷ xs) = refl

All-drop : (P : Finding → Type 0) (n : ℕ) (fs : List Finding) → All P fs → All P (drop n fs)
All-drop P zero fs h = h
All-drop P (suc n) [] h = tt
All-drop P (suc n) (f ∷ fs) h = All-drop P n fs h.1

-- In a sorted list the front is no less severe than the rest.
front_first :
    (n : ℕ) (fs : List Finding)
    → IsSorted fs
    → All (λ f. All (λ g. sev_order f.severity ≤ sev_order g.severity) (drop n fs)) (take n fs)
front_first zero fs s = tt
front_first (suc n) [] s = tt
front_first (suc n) (f ∷ fs) s =
    (All-drop (λ g. sev_order f.severity ≤ sev_order g.severity) n fs s.0, front_first n fs s.1)

-- There is one order of all the findings, each as often as it was found, such that after a scan
-- the saved cursor asks the first n of them and defers exactly the others, and no finding that is
-- asked is less severe than a deferred one.
pub scan_asks_most_severe :
    (n : ℕ) (fs : List Finding) (d : Dir)
    → (sorted : List Finding) × Perm sorted fs
      × (asked (load_cursor (scan_dir n fs d)) ≡ finding_ids (take n sorted))
      × ((load_cursor (scan_dir n fs d)).deferred ≡ finding_ids (drop n sorted))
      × All
          (λ f. All (λ g. sev_order f.severity ≤ sev_order g.severity) (drop n sorted))
          (take n sorted)
unfolding scan_dir prioritize
scan_asks_most_severe n fs d =
    let sorted = sort_by_key fs in
    rw load_cursor-save_cursor (
      sorted,
      sort_by_key-perm fs,
      asked-scan_cursor n (finding_ids sorted) ∙ map-take n sorted,
      deferred-scan_cursor n (finding_ids sorted) ∙ map-drop n sorted,
      front_first n sorted (sort_by_key-IsSorted fs),
    )

-- The rows of the findings behind those that are in the file.
abbrev appended_rows : List Finding → Dir → List Fields
appended_rows fs d = rows_of d.annotations ++ map to_jsonl fs

rows-append_findings :
    (fs : List Finding) (d : Dir) → rows_of (append_findings fs d).annotations ≡ appended_rows fs d
unfolding append_findings append_finding
rows-append_findings [] d = sym (append-nil (rows_of d.annotations))
rows-append_findings (f ∷ fs) d =
    rows-append_findings fs (append_finding f d)
    ∙ append_assoc (rows_of d.annotations) (to_jsonl f ∷ []) (map to_jsonl fs)

load_findings-scan_dir :
    (n : ℕ) (fs : List Finding) (d : Dir)
    → load_findings (scan_dir n fs d) ≡ read_rows (appended_rows fs d)
unfolding scan_dir load_findings save_cursor
load_findings-scan_dir n fs d = ap read_rows (rows-append_findings fs d)

find_in-read_rows :
    (fid : Text) (rows more : List Fields)
    → all is_one_line more ≡ true
    → find_in fid (read_rows rows) ≢ nothing
    → find_in fid (read_rows (rows ++ more)) ≡ find_in fid (read_rows rows)
find_in-read_rows fid rows more l h = elim (Option-cases (read_rows rows)) [
  | inl unread ↦ rw (read_rows-append rows more l, unread) refl
  | inr (got, e) ↦
      let same = read_rows_same rows got e in
      rw (read_rows-append rows more l, e, same)
        (find_row-append fid rows more λ k. h (ap (find_in fid) e ∙ ap (find_row fid) same ∙ k))
]

-- Where a new scan asks first for an identifier that a row of an earlier scan has, and each new
-- finding is read back from one line, the row that is sent is the earlier one; where the earlier
-- rows cannot be read, or one without an identifier comes first, the search ends with the same
-- exception.
pub rescan_sends_old_row :
    (n : ℕ) (fs : List Finding) (d : Dir) (fid : Text)
    → all is_one_line (map to_jsonl fs) ≡ true
    → (load_cursor (scan_dir n fs d)).current_id ≡ some fid
    → find_in fid (load_findings d) ≢ nothing
    → emit_row (scan_dir n fs d) ≡ find_in fid (load_findings d)
unfolding emit_row load_findings
rescan_sends_old_row n fs d fid l c h =
    rw (c, emit_row)
      (ap (find_in fid) (load_findings-scan_dir n fs d)
        ∙ find_in-read_rows fid (rows_of d.annotations) (map to_jsonl fs) l h)
