-- ===== src/Tasks/Queue/Starvation.antt =====
-- `next` goes through the queues from the first, each time: a requester whose queue stands first and
-- who keeps sending holds up every other.
use review_agent_v.Prelude.{
  Text, text_eq_iff, ℕ, zero, suc, Option, none, some, List, [], ◌∷◌, ◌++◌, ◌≡◌, ◌≢◌, refl, arith,
  ◌∙◌, ap, sym,
}
use review_agent_v.Prelude.Json.{Fields}
use review_agent_v.Core.Storage.Tables.{Task}
use review_agent_v.Core.Storage.Tasks.{insert_task}
use review_agent_v.Tasks.Queue.{Queues, TaskQueue, enqueue, put_in, take_first, next, queue_key}
use review_agent_v.Tasks.Queue.Fifo.{waiting}

-- The queue of `k` stands first and is not empty; `others` stand behind it.
abbrev pub IsFront : Text → Queues → TaskQueue → Type 0
IsFront k others q = (tid : ℕ) × (tids : List ℕ) × (q.queues ≡ (k, tid ∷ tids) ∷ others)

snoc_cons : (xs : List ℕ) (x : ℕ) → (y : ℕ) × (ys : List ℕ) × (xs ++ x ∷ [] ≡ y ∷ ys)
snoc_cons [] x = (x, [], refl)
snoc_cons (y ∷ ys) x = (y, ys ++ x ∷ [], refl)

waiting_front :
    (k j : Text) (others : Queues) (q : TaskQueue)
    → IsFront k others q
    → j ≢ k
    → (waiting j q.queues ≡ waiting j others) × (waiting k q.queues ≢ [])
waiting_front k j others q (tid, tids, e) d =
    (rw e (ground (arith, text_eq_iff j k)), rw (e, (text_eq_iff k k).1 refl) (λ h. cc))

module _ (now kind : Text) (payload : Fields) (oid : Option Text) where
  abbrev after : TaskQueue → Option (TaskQueue × ℕ × Option Task) → TaskQueue
  after q none = q
  after q (some (q', tid, task)) = q'

  -- The requester sends one message, and the worker takes one task.
  pub round : TaskQueue → TaskQueue
  round q = after q (next now (enqueue now kind payload oid q).0)

  pub rounds : ℕ → TaskQueue → TaskQueue
  rounds zero q = q
  rounds (suc n) q = rounds n (round q)

  put_front :
      (k : Text) (new : ℕ) (tids : List ℕ) (others : Queues)
      → put_in k new ((k, tids) ∷ others) ≡ (k, tids ++ new ∷ []) ∷ others
  unfolding put_in
  put_front k new tids others = rw ((text_eq_iff k k).1 refl)

  next_front :
      (q p : TaskQueue) (k : Text) (tid : ℕ) (tids : List ℕ) (others : Queues)
      → p.queues ≡ (k, tid ∷ tids) ∷ others
      → (after q (next now p)).queues ≡ (k, tids) ∷ others
  unfolding next take_first
  next_front q p k tid tids others e = rw (e, next)

  round-IsFront :
      (others : Queues) (q : TaskQueue)
      → IsFront (queue_key oid) others q
      → IsFront (queue_key oid) others (round q)
  unfolding round enqueue
  round-IsFront others q (tid, tids, e) =
      let new = (insert_task now kind payload oid q.storage).1 in
      let p = (enqueue now kind payload oid q).0 in
      let (head, tail, split) = snoc_cons tids new in
      let full : p.queues ≡ (queue_key oid, tid ∷ tids ++ new ∷ []) ∷ others =
        rw e (put_front (queue_key oid) new (tid ∷ tids) others) in
      (
        head,
        tail,
        next_front q p (queue_key oid) tid (tids ++ new ∷ []) others full
            ∙ ap (λ (l : List ℕ). (queue_key oid, l) ∷ others) split,
      )

  rounds-IsFront :
      (others : Queues) (n : ℕ) (q : TaskQueue)
      → IsFront (queue_key oid) others q
      → IsFront (queue_key oid) others (rounds n q)
  unfolding rounds
  rounds-IsFront others zero q h = h
  rounds-IsFront others (suc n) q h = rounds-IsFront others n (round q) (round-IsFront others q h)

  -- While the requester of the first queue sends a message before each call of next, any number
  -- of calls leaves the queues of all others as they are, and the first queue is never empty.
  pub front_starves_others :
      (others : Queues) (n : ℕ) (q : TaskQueue) (j : Text)
      → IsFront (queue_key oid) others q
      → j ≢ queue_key oid
      → (waiting j (rounds n q).queues ≡ waiting j q.queues)
        × (waiting (queue_key oid) (rounds n q).queues ≢ [])
  front_starves_others others n q j h d =
      let before = waiting_front (queue_key oid) j others q h d in
      let end =
        waiting_front (queue_key oid) j others (rounds n q) (rounds-IsFront others n q h) d in
      (end.0 ∙ sym before.0, end.1)
