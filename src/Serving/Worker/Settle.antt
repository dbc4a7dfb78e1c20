-- ===== src/Serving/Worker/Settle.antt =====
-- Every request of a batch is settled, each with its own result (server/engine.py).
use mathlib.Core.Option
use pocket_mo_e.Prelude.{
  ℕ, zero, suc, List, [], ◌∷◌, map, Option, none, some, Result, ok, err, runtime_error, length,
  get_elem?, arith, inl, inr, ◌≡◌, refl, ◌>>◌, ◌>>=◌, ◌==◌, nat_eq, if◌then◌else◌, Bool-cases,
  eq_of_beq,
}
use pocket_mo_e.Serving.{QueuedRequest, Engine}
use pocket_mo_e.Serving.Worker.{Runner, settle, batch_payload, listed, set_results, outcomes}

-- the `i`-th of the results that come back for `n` requests
abbrev answer_at : {R : Type 0} → (n i : ℕ) → Option (List R) → Result R
answer_at n i none = err runtime_error
answer_at n i (some xs) =
    if length xs == n
    then elim (get_elem? xs i) [ none ↦ err runtime_error | some x ↦ ok x ]
    else err runtime_error

module _ {V R : Type 0} (runner : Runner V R) where
  -- What the runner makes of the `i`-th request of a batch: alone, its own run; among others, the
  -- `i`-th result of the run of the batch, if there are as many results as requests.
  abbrev pub outcome_at : Engine V → List (QueuedRequest V) → ℕ → Result R
  outcome_at e [] i = err runtime_error
  outcome_at e (r ∷ []) i = runner.broadcast r.payload >> runner.run r.payload
  outcome_at e (r ∷ s ∷ rs) i =
      let payload = batch_payload e r.payload (r ∷ s ∷ rs) in
      runner.broadcast_batch payload
      >> (runner.run_batch payload >>= answer_at (suc (suc (length rs))) i)

  set_results-at :
      (batch : List (QueuedRequest V)) (xs : List R) (i : ℕ)
      → length xs ≡ length batch
      → get_elem? (set_results runner batch xs) i
        ≡ Option.map
            (λ r. (r.result, elim (get_elem? xs i) [ none ↦ err runtime_error | some x ↦ ok x ]))
            (get_elem? batch i)
  unfolding set_results
  set_results-at [] xs i l = refl
  set_results-at (r ∷ rs) [] i l = absurd (omega (arith, l))
  set_results-at (r ∷ rs) (x ∷ xs) zero l = refl
  set_results-at (r ∷ rs) (x ∷ xs) (suc i) l = set_results-at rs xs i (omega (arith, l))

  failed-at :
      (batch : List (QueuedRequest V)) (i : ℕ) (e : _)
      → get_elem? {A = ℕ × Result R} (map (λ r. (r.result, err e)) batch) i
        ≡ Option.map (λ r. (r.result, err e)) (get_elem? batch i)
  failed-at [] i e = refl
  failed-at (r ∷ rs) zero e = refl
  failed-at (r ∷ rs) (suc i) e = failed-at rs i e

  outcomes-at :
      (batch : List (QueuedRequest V)) (sent : Result (Unit {0}))
      (answer : Result (Option (List R))) (i : ℕ)
      → get_elem? (outcomes runner batch (sent >> (answer >>= listed runner batch))) i
        ≡ Option.map
            (λ r. (r.result, sent >> (answer >>= answer_at (length batch) i)))
            (get_elem? batch i)
  unfolding outcomes listed
  outcomes-at batch (err e) answer i = failed-at batch i e
  outcomes-at batch (ok sent) (err e) i = failed-at batch i e
  outcomes-at batch (ok sent) (ok none) i = failed-at batch i runtime_error
  outcomes-at batch (ok sent) (ok (some xs)) i = elim (Bool-cases (length xs == length batch)) [
    | inl t ↦ rw t (set_results-at batch xs i (eq_of_beq _ _ t))
    | inr f ↦ rw f (failed-at batch i runtime_error)
  ]

  -- Whatever the runner does, `_run` settles each request of a batch that is not streamed exactly
  -- once, in the order of the batch, with its own outcome: alone, with its own run; among others, with
  -- the result that stands at its place in the run of the batch; and with an exception when the
  -- runner raises one, or when not as many results come back as there are requests.
  pub settle-every :
      (e : Engine V) (batch : List (QueuedRequest V)) (i : ℕ)
      → get_elem? (settle runner e batch) i
        ≡ Option.map (λ r. (r.result, outcome_at e batch i)) (get_elem? batch i)
  unfolding settle
  settle-every e [] i = refl
  settle-every e (r ∷ []) zero = refl
  settle-every e (r ∷ []) (suc i) = refl
  settle-every e (r ∷ s ∷ rs) i =
      let payload = batch_payload e r.payload (r ∷ s ∷ rs) in
      outcomes-at (r ∷ s ∷ rs) (runner.broadcast_batch payload) (runner.run_batch payload) i
