-- ===== src/Tasks/Queue/Replay.antt =====
-- At a start every task that was waiting or running is put into a queue, as often as it is in the
-- table.
use review_agent_v.Prelude.{
  Text, ℕ, ◌+◌, eqb, Bool, true, false, ◌&&◌, List, [], ◌∷◌, ◌≡◌, refl, arith, count, count-append,
  map, filter, if◌then◌else◌,
}
use review_agent_v.Core.Storage.Tables.{Task, TaskStatus}
use review_agent_v.Core.Storage.Tasks.{
  is_pending, insert_by_time, by_time, list_pending_tasks, recover_running_tasks, recover,
}
use review_agent_v.Tasks.Queue.{Queues, TaskQueue, put_in, put_all, replay_pending, queue_key}

-- How often a task stands in the queues.
abbrev pub queued : ℕ → Queues → ℕ
queued tid [] = 0
queued tid ((k, tids) ∷ qs) = count (eqb tid) tids + queued tid qs

queued-put_in :
    (tid : ℕ) (k : Text) (t : ℕ) (qs : Queues)
    → queued tid (put_in k t qs) ≡ (if eqb tid t then 1 else 0) + queued tid qs
unfolding put_in
queued-put_in tid k t [] = omega arith
queued-put_in tid k t ((j, tids) ∷ qs) =
    ground (arith, queued-put_in tid k t qs, count-append (eqb tid) tids (t ∷ []))

abbrev pub has_task : ℕ → Task → Bool
has_task tid t = eqb tid t.id

queued-put_all :
    (tid : ℕ) (ts : List Task) (qs : Queues)
    → queued tid (put_all ts qs) ≡ count (has_task tid) ts + queued tid qs
unfolding put_all
queued-put_all tid [] qs = omega arith
queued-put_all tid (t ∷ ts) qs = omega (
  arith,
  queued-put_all tid ts (put_in (queue_key t.requester_oid) t.id qs),
  queued-put_in tid (queue_key t.requester_oid) t.id qs,
)

count-insert_by_time :
    (p : Task → Bool) (t : Task) (ts : List Task)
    → count p (insert_by_time t ts) ≡ (if p t then 1 else 0) + count p ts
unfolding insert_by_time
count-insert_by_time p t [] = refl
count-insert_by_time p t (u ∷ ts) = ground (arith, count-insert_by_time p t ts)

count-by_time : (p : Task → Bool) (ts : List Task) → count p (by_time ts) ≡ count p ts
unfolding by_time
count-by_time p [] = refl
count-by_time p (t ∷ ts) = omega (arith, count-insert_by_time p t (by_time ts), count-by_time p ts)

-- A task that is pending or running.
abbrev pub is_unfinished : Task → Bool
is_unfinished t = elim t.status [
  | TaskStatus.pending ↦ true
  | TaskStatus.running ↦ true
  | _ ↦ false
]

recovered_pending :
    (tid : ℕ) (ts : List Task)
    → count (has_task tid) (filter is_pending (map recover ts))
      ≡ count (λ t. has_task tid t && is_unfinished t) ts
recovered_pending tid [] = refl
recovered_pending tid (t ∷ ts) = ground (arith, recovered_pending tid ts)

-- After replay_pending a task stands in the queues as often as it stood there before and,
-- besides, as often as the table has it pending or running.
pub queued-replay_pending :
    (tid : ℕ) (q : TaskQueue)
    → queued tid (replay_pending q).0.queues
      ≡ count (λ t. has_task tid t && is_unfinished t) q.storage.tasks + queued tid q.queues
unfolding replay_pending list_pending_tasks recover_running_tasks
queued-replay_pending tid q =
    let waiting = filter is_pending (map recover q.storage.tasks) in
    omega (
      arith,
      queued-put_all tid (by_time waiting) q.queues,
      count-by_time (has_task tid) waiting,
      recovered_pending tid q.storage.tasks,
    )
