-- ===== src/Pipeline/QaLoop/Reopen.antt =====
-- `transition_after_final_gate_fail`: the loop can go on after it.
use review_agent_v.Prelude.{Text, true, ◌||◌, none, List, [], ◌∷◌, ◌++◌, ◌≡◌, ◌≢◌, arith}
use review_agent_v.Core.Cursor.{Cursor, advance, is_in}
use review_agent_v.Core.Cursor.Conserve.{ids, is_in-append, is_in-ids-advance}
use review_agent_v.Core.Storage.Tables.{Dir}
use review_agent_v.Core.Storage.Findings.{load_cursor, load_cursor-save_cursor}
use review_agent_v.Pipeline.QaLoop.{reopen_cursor, reopen_dir}

reopen_current :
    (fid : Text) (regressions : List Text) (c : Cursor)
    → (reopen_cursor (fid ∷ regressions) c).current_id ≢ none
unfolding reopen_cursor advance
reopen_current fid regressions c h = ground arith

marked :
    (regressions : List Text) (c : Cursor) → (reopen_cursor regressions c).regression_rescan ≡ true
unfolding reopen_cursor advance
marked regressions c = ground arith

is_in-prepended :
    (x : Text) (regressions : List Text) (c : Cursor)
    → is_in x (ids (record c { regression_rescan = true; pending = regressions ++ c.pending }))
      ≡ (is_in x regressions || is_in x (ids c))
is_in-prepended x regressions c = simp is_in-append (ground arith)

is_in-reopen :
    (x : Text) (regressions : List Text) (c : Cursor)
    → x ≢ []
    → is_in x (ids (reopen_cursor regressions c)) ≡ (is_in x regressions || is_in x (ids c))
unfolding reopen_cursor
is_in-reopen x regressions c h =
    let c' = record c { regression_rescan = true; pending = regressions ++ c.pending } in
    ground (arith, is_in-prepended x regressions c, is_in-ids-advance x c' h)

-- After a failed gate with at least one regression the saved cursor names a finding to ask, is
-- marked as a rescan, and holds exactly the regressions and what it held before.
pub reopen_asks :
    (fid : Text) (regressions : List Text) (d : Dir)
    → ((load_cursor (reopen_dir (fid ∷ regressions) d)).current_id ≢ none)
      × ((load_cursor (reopen_dir (fid ∷ regressions) d)).regression_rescan ≡ true)
      × ((x : Text)
          → x ≢ []
          → is_in x (ids (load_cursor (reopen_dir (fid ∷ regressions) d)))
            ≡ (is_in x (fid ∷ regressions) || is_in x (ids (load_cursor d))))
unfolding reopen_dir
reopen_asks fid regressions d = rw load_cursor-save_cursor (
  reopen_current fid regressions (load_cursor d),
  marked (fid ∷ regressions) (load_cursor d),
  λ x. is_in-reopen x (fid ∷ regressions) (load_cursor d),
)
