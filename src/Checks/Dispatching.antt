-- ===== src/Checks/Dispatching.antt =====
-- The theorems on the dispatcher and the confirmation of the subject, at concrete values.
use review_agent_v.Prelude.{
  Text, Option, txt, ◌≡◌, ◌≢◌, none, some, [], ◌∷◌, refl, text_eq, true, ap,
}
use review_agent_v.Core.Enums.{Verdict, Intent}
use review_agent_v.Core.Models.{Session, User}
use review_agent_v.Core.Dispatcher.CloseChain.{enqueue_close_chain}
use review_agent_v.Core.Dispatcher.CloseChain.Kept.{rounds, forced_chain_keeps_rounds}
use review_agent_v.Core.Cursor.{Cursor, is_in, pull_deferred}
use review_agent_v.Core.Cursor.Dict.{from_dict-to_dict}
use review_agent_v.Core.Storage.Findings.{load_cursor, load_findings}
use review_agent_v.Core.Dispatcher.World.{
  Env, World, fail_session, Outcome, content, terminal_failure,
}
use review_agent_v.Core.Dispatcher.Stages.{do_build_and_deliver, build_summary}
use review_agent_v.Core.Storage.Sessions.{get_session, find_session, row_to_session, dir, find_dir}
use review_agent_v.Core.Storage.Users.{get_user}
use review_agent_v.Core.Dispatcher.Stages.Silent.{
  IsUndelivered, unanswered_summary_delivers_nothing,
}
use review_agent_v.Core.Dispatcher.Registration.{maybe_auto_register}
use review_agent_v.Core.Dispatcher.Registration.Pairing.{
  IsRegistered, maybe_auto_register-IsRegistered,
}
use review_agent_v.Core.Dispatcher.Handlers.{more_at_close}
use review_agent_v.Core.Dispatcher.Handlers.More.{more_skips_current}
use review_agent_v.Pipeline.ConfirmTopic.{subject_reply}
use review_agent_v.Pipeline.ConfirmTopic.Resolve.{IsChosen, subject_reply_cases}
use review_agent_v.Checks.Samples.{ann, session, asking, files, store, lower, upper}

-- The model cannot be reached.
abbrev pub env : Env
env = record {
  lower = lower;
  upper = upper;
  sha256 = λ s. s;
  loads = λ s. none;
  clock = λ n. txt "t9";
  chat = λ n. terminal_failure;
  post_ok = λ n. true;
  send = λ n. some (txt "m");
  backends = λ name. none;
  targets_config = none;
  fs_root = txt "fs";
  top_n = 5;
  max_fail_count = 2;
}

abbrev pub world : World
world = record { storage = store; sent = []; chats = 0; ticks = 0; posts = 0; sends = 0 }

no_answer : (t : Text) → env.chat world.chats ≢ content t
no_answer t h = cc

-- The responder is there too, so the model is asked.
abbrev two_users : World
two_users = record world {
  storage = record store { users = ann ∷ record ann { open_id = txt "ou_bob" } ∷ [] };
}

unanswered_summary_delivers_nothing_example :
    IsUndelivered two_users (do_build_and_deliver env (txt "s1") two_users).1
unanswered_summary_delivers_nothing_example =
    unanswered_summary_delivers_nothing env (txt "s1") two_users no_answer

model_is_asked : (do_build_and_deliver env (txt "s1") two_users).1.chats ≡ 1
unfolding do_build_and_deliver build_summary get_session find_session row_to_session dir find_dir
    load_findings get_user text_eq fail_session
model_is_asked = refl

p1_asked : (load_cursor files).current_id ≡ some (txt "p1")
unfolding load_cursor
p1_asked = ap (λ (c : Cursor). c.current_id) (from_dict-to_dict asking)

p1_named : txt "p1" ≢ []
p1_named h = cc

one_moved : (more_at_close 5 files).0 ≡ 1
unfolding more_at_close load_cursor pull_deferred
one_moved = ap (λ (c : Cursor). (pull_deferred 5 c).1) (from_dict-to_dict asking)

some_moved : (more_at_close 5 files).0 ≢ 0
some_moved h = cc one_moved

more_skips_current_example :
    (is_in (txt "p1") (load_cursor (more_at_close 5 files).1).done ≡ true)
    × (load_findings (more_at_close 5 files).1 ≡ load_findings files)
more_skips_current_example = more_skips_current 5 files (txt "p1") p1_asked p1_named some_moved

subject_reply_cases_example :
    ((subject_reply lower (txt "t1") (txt "the budget") session store).0 ≡ none
      → (subject_reply lower (txt "t1") (txt "the budget") session store).1 ≡ store)
    × ((intent : Intent)
        → (subject_reply lower (txt "t1") (txt "the budget") session store).0 ≡ some (intent, none)
        → (subject_reply lower (txt "t1") (txt "the budget") session store).1 ≡ store)
    × ((intent : Intent) (label : Text)
        → (subject_reply lower (txt "t1") (txt "the budget") session store).0
          ≡ some (intent, some label)
        → IsChosen session store
            (subject_reply lower (txt "t1") (txt "the budget") session store).1
            label)
subject_reply_cases_example = subject_reply_cases lower (txt "t1") (txt "the budget") session store

abbrev registered : Outcome (Option User) × World
registered = maybe_auto_register env true (txt "ou_new") none world

maybe_auto_register-IsRegistered_example : IsRegistered (txt "ou_new") true world registered
maybe_auto_register-IsRegistered_example =
    maybe_auto_register-IsRegistered env true (txt "ou_new") none world

-- The session after two failures, with the verdict of the second.
abbrev failed_twice : Session
failed_twice = record session { verdict = some Verdict.fail; fail_count = 2 }

abbrev after_failures : World
after_failures = record two_users {
  storage = record two_users.storage { sessions = failed_twice ∷ [] };
}

forced_chain_keeps_rounds_example :
    rounds (enqueue_close_chain env (txt "s1") true after_failures).1 ≡ rounds after_failures
forced_chain_keeps_rounds_example = forced_chain_keeps_rounds env (txt "s1") after_failures
