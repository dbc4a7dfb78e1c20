-- ===== src/Scheduler/Laws/Order.antt =====
-- Work that is taken as `next_step` says is finished in order: first what decodes, then what waits,
-- each oldest first.
use pocket_mo_e.Prelude.{
  ℕ, zero, suc, ◌+◌, ◌*◌, ◌≤◌, ◌≡◌, refl, ap, ◌∙◌, List, [], ◌∷◌, ◌++◌, none, some, true, false,
  arith, length, inr, list_eq, nat_eq, ◌==◌, if◌then◌else◌,
}
use pocket_mo_e.Scheduler.{
  Queues, prefill, decode, has_work, next_step, mark_prefill_done, mark_request_done,
}
use pocket_mo_e.Scheduler.Laws.Queues.{
  IsWellFormed, mark_prefill_done-IsWellFormed, mark_prefill_done-queues,
  mark_request_done-IsWellFormed, mark_request_done-queues, running-NotIn-waiting,
}
use pocket_mo_e.Scheduler.Laws.Refs.{erase, has_ref, erase_absent}

-- A client that asks for the next step and does it, for so many rounds: the requests that it
-- finishes, in order, and the state that it leaves.
unfoldable pub serve : ℕ → Queues → List ℕ × Queues
serve zero s = ([], s)
serve (suc fuel) s = elim (next_step s) [
  | none ↦ ([], s)
  | some (r, phase) ↦
      if phase == decode
      then (let (done, s') = serve fuel (mark_request_done r s) in (r ∷ done, s'))
      else serve fuel (mark_prefill_done r s)
]

head-has_ref : (r : ℕ) (qs : List ℕ) → has_ref r (r ∷ qs) ≡ true
unfolding has_ref
head-has_ref r qs = ground arith

erase-head : (r : ℕ) (qs : List ℕ) → erase r (r ∷ qs) ≡ qs
unfolding erase
erase-head r qs = ground arith

abbrev Serves : ℕ → Queues → List ℕ → Type 0
Serves fuel s order = ((serve fuel s).0 ≡ order) × (has_work (serve fuel s).1 ≡ false)

module _ (s : Queues) where
  no-work : s.decode_queue ≡ [] → s.prefill_queue ≡ [] → has_work s ≡ false
  unfolding has_work
  no-work d p = rw (d, p)

  next-none : s.decode_queue ≡ [] → s.prefill_queue ≡ [] → next_step s ≡ none
  unfolding next_step
  next-none d p = rw (d, p)

  next-prefill :
      (q : ℕ) (ps : List ℕ)
      → s.decode_queue ≡ []
      → s.prefill_queue ≡ q ∷ ps
      → next_step s ≡ some (q, prefill)
  unfolding next_step
  next-prefill q ps d p = rw (d, p)

  next-decode : (r : ℕ) (ds : List ℕ) → s.decode_queue ≡ r ∷ ds → next_step s ≡ some (r, decode)
  unfolding next_step
  next-decode r ds d = rw d

serve-from :
    (fuel : ℕ) (ds ps : List ℕ) (s : Queues)
    → s.decode_queue ≡ ds
    → s.prefill_queue ≡ ps
    → IsWellFormed s
    → length ds + 2 * length ps ≤ fuel
    → Serves fuel s (ds ++ ps)
unfolding serve
serve-from zero [] [] s d p v h = (refl, no-work s d p)
serve-from zero [] (q ∷ ps) s d p v h = absurd (omega arith)
serve-from zero (r ∷ ds) ps s d p v h = absurd (omega arith)
serve-from (suc fuel) [] [] s d p v h = rw (next-none s d p, serve) (refl, no-work s d p)
serve-from (suc fuel) [] (q ∷ ps) s d p v h =
    let waits : has_ref q s.prefill_queue ≡ true = rw p (head-has_ref q ps) in
    let (left, joined, _) = mark_prefill_done-queues q s v waits in
    let rest =
      serve-from fuel (q ∷ []) ps (mark_prefill_done q s) (joined ∙ ap (λ l. l ++ q ∷ []) d)
        (left ∙ ap (erase q) p ∙ erase-head q ps) (mark_prefill_done-IsWellFormed q s v waits)
        (omega arith) in
    rw (next-prefill s q ps d p, serve) rest
serve-from (suc fuel) (r ∷ ds) ps s d p v h =
    let runs : has_ref r s.decode_queue ≡ true = rw d (head-has_ref r ds) in
    let (left, left', _, _) = mark_request_done-queues r s v (inr runs) in
    let rest =
      serve-from fuel ds ps (mark_request_done r s) (left' ∙ ap (erase r) d ∙ erase-head r ds)
        (left ∙ erase_absent r s.prefill_queue (running-NotIn-waiting r s v runs) ∙ p)
        (mark_request_done-IsWellFormed r s v (inr runs)) (omega arith) in
    rw (next-decode s r ds d, serve) (ap (◌∷◌ r) rest.0, rest.1)

-- A client that asks for the next step of a well-formed state and does it finishes, with rounds
-- enough (one for each request that decodes, two for each that waits), every request, those that
-- decode first and then those that wait, each in the order of its queue, and leaves no work.
pub serve-order :
    (fuel : ℕ) (s : Queues)
    → IsWellFormed s
    → length s.decode_queue + 2 * length s.prefill_queue ≤ fuel
    → ((serve fuel s).0 ≡ s.decode_queue ++ s.prefill_queue) × (has_work (serve fuel s).1 ≡ false)
serve-order fuel s v h = serve-from fuel s.decode_queue s.prefill_queue s refl refl v h
