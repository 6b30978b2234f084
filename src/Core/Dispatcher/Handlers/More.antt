-- ===== src/Core/Dispatcher/Handlers/More.antt =====
-- MORE at the confirmation of the close, where a finding is still being asked.
use review_agent_v.Prelude.{
  Text, ℕ, eqb, ◌≡◌, ◌≢◌, true, some, List, [], ◌∷◌, refl, arith, text_eq, text_eq_iff, any-append,
  inl, inr, Bool-cases, ◌∙◌,
}
use review_agent_v.Core.Cursor.{Cursor, advance, pull_deferred, done_with, is_in}
use review_agent_v.Core.Storage.Tables.{Dir}
use review_agent_v.Core.Storage.Findings.{
  load_cursor, load_findings, load_cursor-save_cursor, load_findings-save_cursor,
}
use review_agent_v.Core.Dispatcher.Handlers.{more_at_close}

is_in-done_with :
    (fid : Text) (done : List Text) → fid ≢ [] → is_in fid (done_with (some fid) done) ≡ true
unfolding done_with is_in
is_in-done_with [] done h = absurd (h refl)
is_in-done_with (c ∷ fid) done h =
    ground
      (arith, any-append (text_eq (c ∷ fid)) done ((c ∷ fid) ∷ []), text_eq_iff (c ∷ fid) (c ∷ fid))

is_in-advance :
    (fid : Text) (c : Cursor)
    → c.current_id ≡ some fid
    → fid ≢ []
    → is_in fid (advance c).done ≡ true
unfolding advance
is_in-advance fid c e h = rw e (is_in-done_with fid c.done h)

pulled_current : (n : ℕ) (c : Cursor) → (pull_deferred n c).0.current_id ≡ c.current_id
unfolding pull_deferred
pulled_current n c = refl

-- Where MORE comes at the confirmation of the close while a named finding is being asked, and
-- something deferred is pulled, that finding counts as done, though the rows of the findings are
-- as they were.
pub more_skips_current :
    (top_n : ℕ) (d : Dir) (fid : Text)
    → (load_cursor d).current_id ≡ some fid
    → fid ≢ []
    → (more_at_close top_n d).0 ≢ 0
    → (is_in fid (load_cursor (more_at_close top_n d).1).done ≡ true)
      × (load_findings (more_at_close top_n d).1 ≡ load_findings d)
unfolding more_at_close
more_skips_current top_n d fid e h n =
    let (c, moved) = pull_deferred top_n (load_cursor d) in
    elim (Bool-cases (eqb moved 0)) [
      | inl zero_moved ↦ absurd (n (ground arith))
      | inr some_moved ↦
          rw (some_moved, load_cursor-save_cursor)
            (
              is_in-advance fid c (pulled_current top_n (load_cursor d) ∙ e) h,
              load_findings-save_cursor (advance c) d,
            )
    ]
