-- ===== src/Checks/Queueing.antt =====
-- The theorems on the queue of tasks and the worker, at concrete values.
use review_agent_v.Prelude.{
  txt, ◌≡◌, ◌≢◌, some, ◌&&◌, [], ◌∷◌, text_eq, text_ne, ◌+◌, count, refl, List, ℕ,
}
use review_agent_v.Prelude.Json.{end}
use review_agent_v.Tasks.Queue.{TaskQueue, Queues, queue_key, replay_pending}
use review_agent_v.Tasks.Queue.Fifo.{waiting}
use review_agent_v.Tasks.Queue.Replay.{queued, has_task, is_unfinished, queued-replay_pending}
use review_agent_v.Tasks.Queue.Starvation.{rounds, front_starves_others}
use review_agent_v.Checks.Samples.{store}

abbrev rows : Queues
rows = (txt "ou_ann", 1 ∷ []) ∷ (txt "ou_cat", 2 ∷ []) ∷ []

abbrev busy : TaskQueue
busy = record { storage = store; queues = rows }

abbrev idle : TaskQueue
idle = record { storage = store; queues = (txt "ou_ann", []) ∷ [] }

queued-replay_pending_example :
    queued 2 (replay_pending idle).0.queues
    ≡ count (λ t. has_task 2 t && is_unfinished t) idle.storage.tasks + queued 2 idle.queues
queued-replay_pending_example = queued-replay_pending 2 idle

cat_behind : txt "ou_cat" ≢ queue_key (some (txt "ou_ann"))
unfolding queue_key text_eq
cat_behind = text_ne (txt "ou_cat") (txt "ou_ann") refl

ann_first :
    (tid : ℕ) × (tids : List ℕ) × (busy.queues
      ≡ (queue_key (some (txt "ou_ann")), tid ∷ tids) ∷ (txt "ou_cat", 2 ∷ []) ∷ [])
unfolding queue_key
ann_first = (1, [], refl)

front_starves_others_example :
    (waiting
        (txt "ou_cat")
        (rounds (txt "t1") (txt "message") end (some (txt "ou_ann")) 5 busy).queues
      ≡ waiting (txt "ou_cat") busy.queues)
    × (waiting
          (queue_key (some (txt "ou_ann")))
          (rounds (txt "t1") (txt "message") end (some (txt "ou_ann")) 5 busy).queues
        ≢ [])
front_starves_others_example =
    front_starves_others (txt "t1") (txt "message") end (some (txt "ou_ann"))
      ((txt "ou_cat", 2 ∷ []) ∷ []) 5 busy (txt "ou_cat") ann_first cat_behind
