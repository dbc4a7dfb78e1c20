-- ===== src/Scheduler/Laws/Steps.antt =====
-- Whatever calls a client makes, in whatever order, the queues stay well formed.
use pocket_mo_e.Prelude.{ℕ, ◌≡◌, ◌⊎◌, List, true}
use pocket_mo_e.Scheduler.{Queues, submit, mark_prefill_done, mark_request_done}
use pocket_mo_e.Scheduler.Laws.Queues.{
  IsWellFormed, submit-IsWellFormed, mark_prefill_done-IsWellFormed, mark_request_done-IsWellFormed,
}
use pocket_mo_e.Scheduler.Laws.Refs.{has_ref}

-- The calls that a client may make on the requests that the queues hold.
pub data Step (s : Queues) : Queues → Type 0 where
  submits : (tokens : List ℕ) (most : ℕ) → Step s (submit tokens most s).1
  prefills : (r : ℕ) → has_ref r s.prefill_queue ≡ true → Step s (mark_prefill_done r s)
  finishes :
      (r : ℕ)
      → (has_ref r s.prefill_queue ≡ true) ⊎ (has_ref r s.decode_queue ≡ true)
      → Step s (mark_request_done r s)

pub data Reach (s : Queues) : Queues → Type 0 where
  here : Reach s s
  next : {t u : Queues} → Reach s t → Step t u → Reach s u

Step-IsWellFormed : {s t : Queues} → Step s t → IsWellFormed s → IsWellFormed t
Step-IsWellFormed {s} (submits tokens most) v = submit-IsWellFormed tokens most s v
Step-IsWellFormed {s} (prefills r m) v = mark_prefill_done-IsWellFormed r s v m
Step-IsWellFormed {s} (finishes r m) v = mark_request_done-IsWellFormed r s v m

-- From a well-formed state, whatever the calls of submit, mark_prefill_done on a waiting request
-- and mark_request_done on a queued request, and whatever their order, the queues stay well
-- formed: no request is twice in a queue, each is in the phase of its queue and owns a cache just
-- when it decodes.
pub Reach-IsWellFormed : {s t : Queues} → IsWellFormed s → Reach s t → IsWellFormed t
Reach-IsWellFormed v here = v
Reach-IsWellFormed v (next r st) = Step-IsWellFormed st (Reach-IsWellFormed v r)
