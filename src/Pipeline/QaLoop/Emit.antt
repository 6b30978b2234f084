-- ===== src/Pipeline/QaLoop/Emit.antt =====
-- The loop goes on only where there is a finding to ask.
use review_agent_v.Prelude.{
  Text, txt, ℕ, suc, zero, eqb, true, false, Option, none, some, List, [], ◌∷◌, ◌++◌, ◌≡◌, ◌≢◌,
  refl, arith, length, take, drop,
}
use review_agent_v.Core.Enums.{Intent, intent_value}
use review_agent_v.Core.Cursor.{Cursor, advance, pull_deferred, is_nil, first}
use review_agent_v.Core.Storage.Tables.{Dir}
use review_agent_v.Core.Storage.Findings.{
  load_findings, load_cursor, save_cursor, load_cursor-save_cursor, log_conversation,
}
use review_agent_v.Pipeline.Intents.{parse_reply_intent}
use review_agent_v.Pipeline.QaLoop.{
  TurnOutcome, Search, key_error, nothing, found, find_in, moved_on, handle_reply, reply_by,
  reply_more, reply_to, reply_current, reply_exhausted, move_on, record_answer, emit_next,
}

-- If the loop goes on, a finding is being asked.
abbrev pub HasCurrent : Option TurnOutcome → Dir → Type 0
HasCurrent r d =
    (o : TurnOutcome) → r ≡ some o → o.action ≡ emit_next → (load_cursor d).current_id ≢ none

first-none : (pending : List Text) → first pending ≡ none → is_nil (drop 1 pending) ≡ true
first-none [] h = refl
first-none (fid ∷ pending) h = cc

-- With nothing asked after `advance` nothing is pending either.
advance_exhausted : (c : Cursor) → (advance c).current_id ≡ none → is_nil (advance c).pending ≡ true
unfolding advance
advance_exhausted c h = first-none c.pending h

move_on-HasCurrent : (c : Cursor) (d : Dir) → HasCurrent (some (move_on c d).0) (move_on c d).1
unfolding move_on
move_on-HasCurrent c d o e a n =
    ground (arith, load_cursor-save_cursor (advance c) d, advance_exhausted c)

-- After a pull that moved something, `advance` finds a finding to ask.
pulled_first :
    (pending deferred : List Text) (n : ℕ)
    → eqb (length (take n deferred)) 0 ≡ false
    → first (pending ++ take n deferred) ≢ none
pulled_first (fid ∷ pending) deferred n m h = cc
pulled_first [] [] zero m h = cc
pulled_first [] [] (suc n) m h = cc
pulled_first [] (fid ∷ deferred) zero m h = cc
pulled_first [] (fid ∷ deferred) (suc n) m h = cc

advance-pull_deferred :
    (n : ℕ) (c : Cursor)
    → eqb (pull_deferred n c).1 0 ≡ false
    → (advance (pull_deferred n c).0).current_id ≢ none
unfolding advance pull_deferred
advance-pull_deferred n c m = pulled_first c.pending c.deferred n m

reply_more-HasCurrent : (n : ℕ) (d : Dir) → HasCurrent (some (reply_more n d).0) (reply_more n d).1
unfolding reply_more
reply_more-HasCurrent n d o e a h =
    let pulled = (pull_deferred n (load_cursor d)).0 in
    ground (
      arith,
      load_cursor-save_cursor pulled d,
      load_cursor-save_cursor (advance pulled) (save_cursor pulled d),
      advance-pull_deferred n (load_cursor d),
    )

moved_on-HasCurrent :
    (c : Cursor) (r : Option Dir) (d : Dir) → HasCurrent (moved_on c r d).0 (moved_on c r d).1
moved_on-HasCurrent c none d = λ o e a h. cc
moved_on-HasCurrent c (some d') d = move_on-HasCurrent c d'

reply_to-HasCurrent :
    (intent : Intent) (remainder now fid : Text) (c : Cursor) (row : Search) (d : Dir)
    → HasCurrent
        (reply_to intent remainder now fid c row d).0
        (reply_to intent remainder now fid c row d).1
unfolding reply_to
reply_to-HasCurrent intent remainder now fid c key_error d = λ o e a h. cc
reply_to-HasCurrent Intent.question remainder now fid c nothing d = λ o e a h. cc
reply_to-HasCurrent Intent.question remainder now fid c (found row) d = λ o e a h. cc
reply_to-HasCurrent intent remainder now fid c nothing d =
    moved_on-HasCurrent c (record_answer intent remainder now fid nothing d) d
reply_to-HasCurrent intent remainder now fid c (found row) d =
    moved_on-HasCurrent c (record_answer intent remainder now fid (found row) d) d

reply_current-HasCurrent :
    (intent : Intent) (remainder now : Text) (c : Cursor) (cur : Option Text) (d : Dir)
    → HasCurrent
        (reply_current intent remainder now c cur d).0
        (reply_current intent remainder now c cur d).1
unfolding reply_current reply_exhausted
reply_current-HasCurrent intent remainder now c none d = λ o e a h. ground arith
reply_current-HasCurrent intent remainder now c (some fid) d =
    reply_to-HasCurrent intent remainder now fid c (find_in fid (load_findings d)) d

reply_by-HasCurrent :
    (intent : Intent) (remainder now : Text) (n : ℕ) (d : Dir)
    → HasCurrent (reply_by intent remainder now n d).0 (reply_by intent remainder now n d).1
unfolding reply_by
reply_by-HasCurrent Intent.more remainder now n d = reply_more-HasCurrent n d
reply_by-HasCurrent Intent.done remainder now n d = λ o e a h. cc
reply_by-HasCurrent Intent.force_close remainder now n d = λ o e a h. cc
reply_by-HasCurrent intent remainder now n d =
    reply_current-HasCurrent intent remainder now (load_cursor d) (load_cursor d).current_id d

-- Whatever the reply and the files, if handle_reply asks for the next finding to be sent, then
-- the saved cursor names a finding to send.
pub emit_next_has_current :
    (lower : Text → Text) (reply logged now : Text) (n : ℕ) (d : Dir) (o : TurnOutcome)
    → (handle_reply lower reply logged now n d).0 ≡ some o
    → o.action ≡ emit_next
    → (load_cursor (handle_reply lower reply logged now n d).1).current_id ≢ none
unfolding handle_reply
emit_next_has_current lower reply logged now n d =
    let (intent, remainder) = parse_reply_intent lower reply (txt "qa_loop") in
    reply_by-HasCurrent intent remainder now n
      (log_conversation logged (txt "requester") reply (some (intent_value intent)) d)
