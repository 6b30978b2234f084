-- ===== src/Core/Dispatcher/CloseChain/Kept.antt =====
-- When the close chain does not go back to the questions: the numbers of the rounds stay.
use review_agent_v.Prelude.{
  Text, txt, text_eq, ℕ, Bool, true, false, not, ◌&&◌, Option, none, some, List, [], ◌∷◌, map,
  if◌then◌else◌, ◌≡◌, refl, ap, ◌∙◌, inl, inr, Bool-cases, arith,
}
use review_agent_v.Core.Enums.{Stage, SessionStatus, Verdict}
use review_agent_v.Core.Models.{Session}
use review_agent_v.Core.Storage.Tables.{Dir}
use review_agent_v.Core.Storage.Sessions.{get_session, on_dir, update_session}
use review_agent_v.Core.Storage.Users.{get_user}
use review_agent_v.Core.Storage.Audit.{log_llm_call}
use review_agent_v.Core.Storage.Findings.{load_findings}
use review_agent_v.Core.Dispatcher.World.{
  Env, World, answered, Act, Outcome, ok, llm_failure, exception, continue, handled, ◌>>=◌, ◌>>◌,
  pure, need, try_llm, session_of, user_of, files_of, on_files, update, log_call, chat, now,
  fail_session, Reply, content, terminal_failure, other_failure,
}
use review_agent_v.Core.Dispatcher.Stages.{
  do_merge, do_final_gate, do_build_and_deliver, merge_draft, final_gate, build_summary,
  deliver_session, deliver_run, ended, parsed, draft, fields,
}
use review_agent_v.Core.Dispatcher.CloseChain.{
  is_fail, close, by_verdict, after_gate, enqueue_close_chain,
}
use review_agent_v.Pipeline.Extract.{extract}
use review_agent_v.Pipeline.FinalGate.{decide, gate_session, gate_outcome}
use review_agent_v.Pipeline.Deliver
use review_agent_v.Pipeline.Deliver.{Wire, Setting, all_ok, set_closing, set_closed}
use review_agent_v.Pipeline.Deliver.Close.{on_rows, closed_iff_all_ok}
use review_agent_v.Pipeline.Deliver.Backends.{Target}
use review_agent_v.Pipeline.Deliver.Targets.{load_targets}

-- The numbers of the rounds, row by row.
abbrev pub round_numbers : List Session → List ℕ
round_numbers rows = map (λ r. r.round_no) rows

abbrev pub rounds : World → List ℕ
rounds w = round_numbers w.storage.sessions

-- The action changes no number of a round, however it ends.
unfoldable IsKept : {A : Type 0} → Act A → Type 0
IsKept m = (w : World) → rounds (m w).1 ≡ rounds w

rounds-on_rows :
    (sid : Text) (f : Session → Session) (rows : List Session)
    → ((r : Session) → (f r).round_no ≡ r.round_no)
    → round_numbers (on_rows sid f rows) ≡ round_numbers rows
rounds-on_rows sid f [] h = refl
rounds-on_rows sid f (r ∷ rows) h = elim (Bool-cases (text_eq sid r.id)) [
  | inl same ↦ rw (same, h r, rounds-on_rows sid f rows h) refl
  | inr other ↦ rw (other, rounds-on_rows sid f rows h) refl
]

IsKept-update :
    (sid : Text) (f : Session → Session)
    → ((r : Session) → (f r).round_no ≡ r.round_no)
    → IsKept (update sid f)
unfolding IsKept update_session
IsKept-update sid f h w = rounds-on_rows sid f w.storage.sessions h

IsKept-continue :
    {A B : Type 0} (r : Outcome A × World) (f : A → Act B)
    → ((a : A) → IsKept (f a))
    → rounds (continue r.0 f r.1).1 ≡ rounds r.1
unfolding IsKept
IsKept-continue (ok a, w) f k = k a w
IsKept-continue (llm_failure, w) f k = refl
IsKept-continue (exception, w) f k = refl

IsKept-bind :
    {A B : Type 0} (m : Act A) (f : A → Act B)
    → IsKept m
    → ((a : A) → IsKept (f a))
    → IsKept (m >>= f)
unfolding IsKept
IsKept-bind m f h k w = IsKept-continue (m w) f k ∙ h w

IsKept-handled :
    {A : Type 0} (r : Outcome A × World) (handler : Act A)
    → IsKept handler
    → rounds (handled r handler).1 ≡ rounds r.1
unfolding IsKept
IsKept-handled (ok a, w) handler k = refl
IsKept-handled (llm_failure, w) handler k = k w
IsKept-handled (exception, w) handler k = refl

IsKept-try_llm :
    {A : Type 0} (body handler : Act A)
    → IsKept body
    → IsKept handler
    → IsKept (try_llm body handler)
unfolding IsKept
IsKept-try_llm body handler h k w = IsKept-handled (body w) handler k ∙ h w

IsKept-need : {A : Type 0} (o : Option A) → IsKept (need o)
unfolding IsKept
IsKept-need none w = refl
IsKept-need (some a) w = refl

IsKept-session_of : (sid : Text) → IsKept (session_of sid)
unfolding IsKept
IsKept-session_of sid w = IsKept-need (get_session sid w.storage) w

IsKept-user_of : (oid : Text) → IsKept (user_of oid)
unfolding IsKept
IsKept-user_of oid w = IsKept-need (get_user oid w.storage) w

IsKept-parsed : {A : Type 0} (o : Option A) → IsKept (parsed o)
unfolding IsKept
IsKept-parsed none w = refl
IsKept-parsed (some a) w = refl

IsKept-on_files : (sid : Text) (f : Dir → Dir) → IsKept (on_files sid f)
unfolding IsKept on_dir
IsKept-on_files sid f w = refl

IsKept-log_call : (sid stage : Text) → IsKept (log_call sid stage)
unfolding IsKept log_llm_call
IsKept-log_call sid stage w = refl

IsKept-fail_session :
    (s : Session) (stage : Stage) (label : Text) → IsKept (fail_session s stage label)
unfolding IsKept fail_session update_session
IsKept-fail_session s stage label w =
    rounds-on_rows s.id (λ r. record r { stage = stage; status = SessionStatus.failed })
      w.storage.sessions λ r. refl

IsKept-files_of : (sid : Text) → IsKept (files_of sid)
unfolding IsKept
IsKept-files_of sid w = refl

IsKept-pure : {A : Type 0} (a : A) → IsKept (pure a)
unfolding IsKept
IsKept-pure a w = refl

answered_kept : (r : Reply) (w : World) → rounds (answered r w).1 ≡ rounds w
answered_kept (content t) w = refl
answered_kept terminal_failure w = refl
answered_kept other_failure w = refl

gate_session-round : (v : Verdict) (s r : Session) → (gate_session v s r).round_no ≡ r.round_no
unfolding gate_session
gate_session-round Verdict.fail s r = refl
gate_session-round _ s r = refl

and_false : (b : Bool) → (b && false) ≡ false
and_false b = ground arith

module _ (e : Env) where
  IsKept-now : IsKept (now e)
  unfolding IsKept
  IsKept-now w = refl

  IsKept-chat : IsKept (chat e)
  unfolding IsKept
  IsKept-chat w = answered_kept (e.chat w.chats) _

  IsKept-merge_draft : (s : Session) → IsKept (merge_draft e s)
  unfolding merge_draft
  IsKept-merge_draft s = IsKept-bind (files_of s.id) _ (IsKept-files_of s.id) λ files.
      IsKept-bind (need files.normalized) _ (IsKept-need files.normalized) λ t.
        IsKept-bind (need (load_findings files)) _ (IsKept-need (load_findings files)) λ rows.
          IsKept-bind (user_of s.responder_oid) _ (IsKept-user_of s.responder_oid) λ u.
            IsKept-bind (chat e) _ IsKept-chat λ answer.
              IsKept-bind (log_call s.id (txt "merge_draft")) _
                (IsKept-log_call s.id (txt "merge_draft"))
                λ v.
                  IsKept-bind (on_files s.id (λ d. record d { revised = some answer })) _
                    (IsKept-on_files s.id (λ d. record d { revised = some answer }))
                    λ x. IsKept-update s.id (λ r. record r { stage = Stage.final_gating }) λ r. refl

  IsKept-do_merge : (sid : Text) → IsKept (do_merge e sid)
  unfolding do_merge
  IsKept-do_merge sid = IsKept-bind (session_of sid) _ (IsKept-session_of sid) λ s.
      IsKept-try_llm (merge_draft e s) _ (IsKept-merge_draft s)
        (IsKept-fail_session s Stage.merging (txt "merge_draft"))

  IsKept-final_gate : (s : Session) (forced : Bool) → IsKept (final_gate e s forced)
  unfolding final_gate
  IsKept-final_gate s forced = IsKept-bind (files_of s.id) _ (IsKept-files_of s.id) λ files.
      IsKept-bind (need (draft files)) _ (IsKept-need (draft files)) λ t.
        IsKept-bind (user_of s.responder_oid) _ (IsKept-user_of s.responder_oid) λ u.
          IsKept-bind (chat e) _ IsKept-chat λ answer.
            IsKept-bind (log_call s.id (txt "final_gate")) _
              (IsKept-log_call s.id (txt "final_gate"))
              λ v.
                IsKept-bind (parsed (extract e.loads answer)) _
                  (IsKept-parsed (extract e.loads answer))
                  λ env.
                    IsKept-bind (need (load_findings files)) _ (IsKept-need (load_findings files))
                      λ rows.
                        IsKept-bind (need (decide e.upper forced env)) _
                          (IsKept-need (decide e.upper forced env))
                          λ verdict.
                            IsKept-bind
                              (on_files s.id (λ d. record d {
                                verdict = some (gate_outcome verdict (fields env) rows);
                              }))
                              _
                              (IsKept-on_files s.id (λ d. record d {
                                verdict = some (gate_outcome verdict (fields env) rows);
                              }))
                              λ x.
                                IsKept-update s.id (gate_session verdict s)
                                  (gate_session-round verdict s)

  IsKept-do_final_gate : (sid : Text) (forced : Bool) → IsKept (do_final_gate e sid forced)
  unfolding do_final_gate
  IsKept-do_final_gate sid forced = IsKept-bind (session_of sid) _ (IsKept-session_of sid) λ s.
      IsKept-try_llm (final_gate e s forced) _ (IsKept-final_gate s forced)
        (IsKept-fail_session s Stage.final_gating (txt "final_gate"))

  IsKept-build_summary : (s : Session) → IsKept (build_summary e s)
  unfolding build_summary
  IsKept-build_summary s = IsKept-bind (files_of s.id) _ (IsKept-files_of s.id) λ files.
      IsKept-bind (need (draft files)) _ (IsKept-need (draft files)) λ t.
        IsKept-bind (need (load_findings files)) _ (IsKept-need (load_findings files)) λ rows.
          IsKept-bind (user_of s.responder_oid) _ (IsKept-user_of s.responder_oid) λ u.
            IsKept-bind (user_of s.requester_oid) _ (IsKept-user_of s.requester_oid) λ v.
              IsKept-bind (now e) _ IsKept-now λ ts. IsKept-bind (chat e) _ IsKept-chat λ answer.
                IsKept-bind (log_call s.id (txt "build_summary")) _
                  (IsKept-log_call s.id (txt "build_summary"))
                  λ x. IsKept-on_files s.id (λ d. record d { summary = some answer })

  if_kept :
      (setting : Setting) (s : Session) (b : Bool) (rows : List Session)
      → round_numbers (
          if b
          then on_rows s.id (set_closed setting.now) (on_rows s.id set_closing rows)
          else on_rows s.id set_closing rows)
        ≡ round_numbers rows
  if_kept setting s true rows =
      rounds-on_rows s.id (set_closed setting.now) (on_rows s.id set_closing rows) (λ r. refl)
      ∙ rounds-on_rows s.id set_closing rows (λ r. refl)
  if_kept setting s false rows = rounds-on_rows s.id set_closing rows λ r. refl

  deliver_on :
      (s : Session) (found : Option (List Target)) (w : World)
      → load_targets e.targets_config e.fs_root s.requester_oid s.responder_oid ≡ found
      → rounds (deliver_run e s w).1 ≡ rounds w
  unfolding deliver_run
  deliver_on s none w h = rw h refl
  deliver_on s (some targets) w h =
      let setting : Setting = record {
        backends = e.backends;
        sha256 = e.sha256;
        send = e.send;
        now = e.clock w.ticks;
      } in
      let wire : Wire = record { storage = w.storage; sends = w.sends } in
      rw h (
        ap round_numbers (closed_iff_all_ok setting s targets wire).1
        ∙ if_kept setting s (all_ok (Deliver.run setting s targets wire).0) w.storage.sessions)

  IsKept-deliver_run : (s : Session) → IsKept (deliver_run e s)
  unfolding IsKept
  IsKept-deliver_run s w = deliver_on s _ w refl

  IsKept-if :
      (rest : Act (Unit {0})) → IsKept rest → (b : Bool) → IsKept (if b then rest else pure tt)
  IsKept-if rest k true = k
  IsKept-if rest k false = IsKept-pure tt

  IsKept-ended :
      (m : Act Bool) (rest : Act (Unit {0})) → IsKept m → IsKept rest → IsKept (ended m rest)
  IsKept-ended m rest h k = IsKept-bind m (λ b. if b then rest else pure tt) h (IsKept-if rest k)

  IsKept-close : (sid : Text) → IsKept (close e sid)
  unfolding close do_build_and_deliver deliver_session
  IsKept-close sid =
      IsKept-bind (update sid (λ r. record r { stage = Stage.closing })) _
        (IsKept-update sid _ λ r. refl)
        λ u. IsKept-bind (session_of sid) _ (IsKept-session_of sid) λ s.
          IsKept-ended _ _
            (IsKept-try_llm (do build_summary e s; pure true) _
              (IsKept-bind (build_summary e s) _ (IsKept-build_summary s) λ v. IsKept-pure true)
              (IsKept-bind (fail_session s Stage.closing (txt "build_summary")) _
                (IsKept-fail_session s Stage.closing (txt "build_summary")) λ v. IsKept-pure false))
            (IsKept-bind (session_of sid) (deliver_run e) (IsKept-session_of sid)
              IsKept-deliver_run)

  IsKept-passed :
      (s : Session) (forced : Bool)
      → forced ≡ true
      → IsKept (by_verdict e s (is_fail s.verdict && not forced))
  unfolding by_verdict
  IsKept-passed s true h = rw (and_false (is_fail s.verdict)) (IsKept-close s.id)
  IsKept-passed s false h = cc

  forced_chain : (sid : Text) → IsKept (enqueue_close_chain e sid true)
  unfolding enqueue_close_chain after_gate
  forced_chain sid = IsKept-bind (do_merge e sid) _ (IsKept-do_merge sid) λ u.
      IsKept-bind (do_final_gate e sid true) _ (IsKept-do_final_gate sid true)
        λ v. IsKept-bind (session_of sid) _ (IsKept-session_of sid) λ s. IsKept-passed s true refl

  -- A close chain that is forced changes no number of a round, whatever the model answers, the
  -- storage holds and however it ends.
  pub forced_chain_keeps_rounds :
      (sid : Text) (w : World) → rounds (enqueue_close_chain e sid true w).1 ≡ rounds w
  unfolding IsKept
  forced_chain_keeps_rounds sid w = forced_chain sid w
