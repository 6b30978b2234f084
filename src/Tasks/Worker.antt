-- ===== src/Tasks/Worker.antt =====
-- review_agent/tasks/worker.py: `run` takes one task after the other. The single consumer always finds
-- its requester's lock free, so the locks are left out. `dispatch` is the dispatcher, over the storage.
pub mod Ends
use review_agent_v.Prelude.{Text, ℕ, zero, suc, Bool, true, false, Option, none, some, List}
use review_agent_v.Core.Storage.Tables.{Storage, Task}
use review_agent_v.Tasks.Queue.{TaskQueue, next, mark_done, mark_failed}

-- How a call of `dispatch` ends: it returns, raises LLMTerminalFailure or another Exception, or is cancelled
-- with the worker: CancelledError is no Exception.
pub data Ending : Type 0 where
  returned cancelled : Ending
  terminal_failure other_exception : (message : Text) → Ending

abbrev pub Dispatch : Type 0
Dispatch = Task → Storage → Storage × Ending

-- The `except` clauses; none of them takes the cancellation, which ends the worker.
unfoldable pub settle : Text → ℕ → Ending → TaskQueue → TaskQueue
settle now tid returned q = mark_done now tid q
settle now tid cancelled q = q
settle now tid (terminal_failure message) q = mark_failed now tid message true q
settle now tid (other_exception message) q = mark_failed now tid message true q

module _ (now : Text) (dispatch : Dispatch) where
  abbrev dispatched : ℕ → TaskQueue → Storage × Ending → TaskQueue
  dispatched tid q (s, ending) = settle now tid ending (record q { storage = s })

  -- One turn of the loop, the last one where the dispatch was cancelled; `none` while it waits. A task that is not in the table stops the worker
  -- (`task.get` on None).
  unfoldable pub turn : TaskQueue → Option TaskQueue
  turn q = elim (next now q) [
    | none ↦ none
    | some (q', tid, none) ↦ none
    | some (q', tid, some task) ↦ some (dispatched tid q' (dispatch task q'.storage))
  ]
