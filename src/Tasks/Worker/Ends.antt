-- ===== src/Tasks/Worker/Ends.antt =====
-- What becomes of a task that the worker took, after the next start of the service.
use review_agent_v.Prelude.{ℕ, Bool, true, false, ◌&&◌, count}
use review_agent_v.Tasks.Queue.{TaskQueue}
use review_agent_v.Tasks.Queue.Replay.{has_task, is_unfinished}
use review_agent_v.Tasks.Worker.{Ending, cancelled}

-- How often the table has the task pending or running.
abbrev pub unfinished : ℕ → TaskQueue → ℕ
unfinished tid q = count (λ t. has_task tid t && is_unfinished t) q.storage.tasks

abbrev pub is_cancelled : Ending → Bool
is_cancelled cancelled = true
is_cancelled _ = false
