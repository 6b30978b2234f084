-- ===== src/Tasks/Queue.antt =====
-- review_agent/tasks/queue.py: one FIFO queue for each requester, in the order in which the dict of
-- queues got its keys. `next` gives `none` where the Python waits for the next `enqueue`.
pub mod Fifo
pub mod Replay
pub mod Starvation
use review_agent_v.Prelude.{
  Text, txt, text_eq, ℕ, ◌+◌, Bool, Option, none, some, List, [], ◌∷◌, ◌++◌, length, if◌then◌else◌,
}
use review_agent_v.Prelude.Json.{Fields}
use review_agent_v.Core.Storage.Tables.{Storage, Task}
use review_agent_v.Core.Storage.Tasks.{
  insert_task, fetch_task, mark_task_running, mark_task_done, mark_task_failed, list_pending_tasks,
  recover_running_tasks,
}

abbrev pub Queues : Type 0
Queues = List (Text × List ℕ)

pub record TaskQueue : Type 0 where
  pub storage : Storage
  pub queues : Queues

-- oid or "_global"
unfoldable pub queue_key : Option Text → Text
queue_key none = txt "_global"
queue_key (some []) = txt "_global"
queue_key (some (c ∷ oid)) = c ∷ oid

-- self._q(oid).put(tid): the defaultdict makes a queue where there is none.
unfoldable pub put_in : Text → ℕ → Queues → Queues
put_in k tid [] = (k, tid ∷ []) ∷ []
put_in k tid ((j, tids) ∷ qs) =
    if text_eq k j then (j, tids ++ tid ∷ []) ∷ qs else (j, tids) ∷ put_in k tid qs

-- The queue and the new task's identifier.
unfoldable pub enqueue : (now kind : Text) → Fields → Option Text → TaskQueue → TaskQueue × ℕ
enqueue now kind payload oid q =
    let (s, tid) = insert_task now kind payload oid q.storage in
    (record { storage = s; queues = put_in (queue_key oid) tid q.queues }, tid)

unfoldable pub put_all : List Task → Queues → Queues
put_all [] qs = qs
put_all (t ∷ ts) qs = put_all ts (put_in (queue_key t.requester_oid) t.id qs)

-- The queue and how many tasks were recovered or put.
unfoldable pub replay_pending : TaskQueue → TaskQueue × ℕ
replay_pending q =
    let (s, recovered) = recover_running_tasks q.storage in
    let waiting = list_pending_tasks s in
    (record { storage = s; queues = put_all waiting q.queues }, recovered + length waiting)

abbrev pub keep_empty : Text → Option (ℕ × Queues) → Option (ℕ × Queues)
keep_empty k none = none
keep_empty k (some (tid, qs)) = some (tid, (k, []) ∷ qs)

-- The first task of the first queue that is not empty, and the queues without it.
unfoldable pub take_first : Queues → Option (ℕ × Queues)
take_first [] = none
take_first ((k, []) ∷ qs) = keep_empty k (take_first qs)
take_first ((k, tid ∷ tids) ∷ qs) = some (tid, (k, tids) ∷ qs)

abbrev taken : Text → Storage → Option (ℕ × Queues) → Option (TaskQueue × ℕ × Option Task)
taken now s none = none
taken now s (some (tid, qs)) =
    let s' = mark_task_running now tid s in
    some (record { storage = s'; queues = qs }, tid, fetch_task tid s')

unfoldable pub next : Text → TaskQueue → Option (TaskQueue × ℕ × Option Task)
next now q = taken now q.storage (take_first q.queues)

unfoldable pub mark_done : Text → ℕ → TaskQueue → TaskQueue
mark_done now tid q = record q { storage = mark_task_done now tid q.storage }

unfoldable pub mark_failed : Text → ℕ → Text → Bool → TaskQueue → TaskQueue
mark_failed now tid err terminal q = record q {
  storage = mark_task_failed now tid err terminal q.storage;
}
