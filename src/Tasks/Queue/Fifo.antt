-- ===== src/Tasks/Queue/Fifo.antt =====
-- Within one requester's queue tasks keep their order, and `next` waits only for work.
use review_agent_v.Prelude.{
  Text, text_eq, text_eq_iff, ℕ, none, List, [], ◌∷◌, ◌++◌, ◌≡◌, ◌↔◌, refl, arith, All,
  if◌then◌else◌, Option-cases, inl, inr,
}
use review_agent_v.Tasks.Queue.{Queues, TaskQueue, put_in, take_first, next}

-- The tasks that wait in the queue of a key.
abbrev pub waiting : Text → Queues → List ℕ
waiting k [] = []
waiting k ((j, tids) ∷ qs) = if text_eq k j then tids else waiting k qs

-- Every queue is empty.
abbrev pub AreEmpty : Queues → Type 0
AreEmpty qs = All (λ (q : Text × List ℕ). q.1 ≡ []) qs

-- A task that is put in goes behind those that wait in the queue of its key, and the queues of
-- all other keys stay as they are.
pub waiting-put_in :
    (k j : Text) (tid : ℕ) (qs : Queues)
    → waiting j (put_in k tid qs) ≡ (if text_eq j k then waiting k qs ++ tid ∷ [] else waiting j qs)
unfolding put_in
waiting-put_in k j tid [] = ground (arith, text_eq_iff j k)
waiting-put_in k j tid ((i, tids) ∷ qs) =
    ground (arith, waiting-put_in k j tid qs, text_eq_iff j k, text_eq_iff k i, text_eq_iff j i)

take_first-none : (qs : Queues) → take_first qs ≡ none → AreEmpty qs
unfolding take_first
take_first-none [] h = tt
take_first-none ((k, []) ∷ qs) h = (refl, take_first-none qs (ground arith))
take_first-none ((k, tid ∷ tids) ∷ qs) h = cc

take_first_empty : (qs : Queues) → AreEmpty qs → take_first qs ≡ none
unfolding take_first
take_first_empty [] h = refl
take_first_empty ((k, []) ∷ qs) h = rw (take_first_empty qs h.1)
take_first_empty ((k, tid ∷ tids) ∷ qs) h = cc (h.0)

taken_none : (now : Text) (q : TaskQueue) → (next now q ≡ none) ↔ (take_first q.queues ≡ none)
unfolding next
taken_none now q = elim (Option-cases (take_first q.queues)) [
  | inl e ↦ (λ h. e, λ h. rw e)
  | inr (a, e) ↦ (λ h. ground arith, λ h. ground arith)
]

-- The call of next waits exactly where every queue is empty.
pub next_waits_iff : (now : Text) (q : TaskQueue) → (next now q ≡ none) ↔ AreEmpty q.queues
next_waits_iff now q = (
  λ h. take_first-none q.queues ((taken_none now q).0 h),
  λ h. (taken_none now q).1 (take_first_empty q.queues h),
)
