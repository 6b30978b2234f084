-- ===== src/Core/Storage/Tasks.antt =====
-- Storage: the table `tasks`.
use review_agent_v.Prelude.{
  Text, txt, ℕ, suc, ◌+◌, eqb, Bool, true, false, Option, none, some, List, [], ◌∷◌, ◌++◌, filter,
  find?, map, count, take, if◌then◌else◌, ◌≡◌, refl, arith,
}
use review_agent_v.Prelude.Json.{Fields}
use review_agent_v.Core.Storage.Sessions.{text_lt}
use review_agent_v.Core.Storage.Tables.{Storage, Task, TaskStatus}

-- The storage and the new identifier (AUTOINCREMENT).
unfoldable pub insert_task : (now kind : Text) → Fields → Option Text → Storage → Storage × ℕ
insert_task now kind payload requester_oid s = (
  record s {
    tasks =
        s.tasks
        ++ record {
          id = s.next_task_id;
          kind = kind;
          payload = payload;
          requester_oid = requester_oid;
          status = TaskStatus.pending;
          attempts = 0;
          last_error = none;
          scheduled_at = now;
          picked_at = none;
          finished_at = none;
        }
          ∷ [];
    next_task_id = suc s.next_task_id;
  },
  s.next_task_id,
)

unfoldable pub fetch_task : ℕ → Storage → Option Task
fetch_task tid s = find? (λ t. eqb tid t.id) s.tasks

-- UPDATE tasks SET … WHERE id=?
abbrev pub update_task : ℕ → (Task → Task) → Storage → Storage
update_task tid f s = record s { tasks = map (λ t. if eqb tid t.id then f t else t) s.tasks }

unfoldable pub mark_task_running : (now : Text) → ℕ → Storage → Storage
mark_task_running now tid =
    update_task tid (λ t. record t {
      status = TaskStatus.running;
      picked_at = some now;
      attempts = t.attempts + 1;
    })

unfoldable pub mark_task_done : (now : Text) → ℕ → Storage → Storage
mark_task_done now tid =
    update_task tid (λ t. record t { status = TaskStatus.done; finished_at = some now })

unfoldable pub mark_task_failed :
    (now : Text) → ℕ → (err : Text) → (terminal : Bool) → Storage → Storage
mark_task_failed now tid err terminal = update_task tid (λ t. record t {
  status = if terminal then TaskStatus.failed else TaskStatus.pending;
  last_error = some (take 1000 err);
  finished_at = if terminal then some now else none;
})

abbrev pub is_pending : Task → Bool
is_pending t = elim t.status [ TaskStatus.pending ↦ true | _ ↦ false ]

abbrev pub is_running : Task → Bool
is_running t = elim t.status [ TaskStatus.running ↦ true | _ ↦ false ]

-- ORDER BY scheduled_at, keeping the order of the table among equals.
unfoldable pub insert_by_time : Task → List Task → List Task
insert_by_time t [] = t ∷ []
insert_by_time t (u ∷ tasks) =
    if text_lt u.scheduled_at t.scheduled_at then u ∷ insert_by_time t tasks else t ∷ u ∷ tasks

unfoldable pub by_time : List Task → List Task
unfolding insert_by_time
by_time [] = []
by_time (t ∷ tasks) = insert_by_time t (by_time tasks)

unfoldable pub list_pending_tasks : Storage → List Task
unfolding by_time
list_pending_tasks s = by_time (filter is_pending s.tasks)

abbrev pub recover : Task → Task
recover t =
    if is_running t
    then record t { status = TaskStatus.pending; last_error = some (txt "worker crashed mid-run") }
    else t

-- The storage and the number of rows changed.
unfoldable pub recover_running_tasks : Storage → Storage × ℕ
recover_running_tasks s = (record s { tasks = map recover s.tasks }, count is_running s.tasks)

count-recover :
    (tasks : List Task)
    → (count is_running (map recover tasks) ≡ 0)
      × (count is_pending (map recover tasks) ≡ count is_running tasks + count is_pending tasks)
count-recover [] = (refl, refl)
count-recover (t ∷ tasks) = ground (arith, count-recover tasks)

-- After the recovery no task is running, and each that was is pending.
pub recover_running_tasks_lem :
    (s : Storage)
    → (count is_running (recover_running_tasks s).0.tasks ≡ 0)
      × (count is_pending (recover_running_tasks s).0.tasks
          ≡ (recover_running_tasks s).1 + count is_pending s.tasks)
unfolding recover_running_tasks
recover_running_tasks_lem s = count-recover s.tasks
