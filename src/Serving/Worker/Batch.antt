-- ===== src/Serving/Worker/Batch.antt =====
-- What `_collect_batch` puts in a batch, and that no request gets lost.
use pocket_mo_e.Prelude.{
  ℕ, ◌≤◌, ◌<◌, List, [], ◌∷◌, ◌++◌, Option, none, some, Bool, true, not, ◌||◌, ◌≡◌, refl, sym,
  subst, length, length-append, arith, ltb, All, nat_eq, Bool-cases, inl, inr,
}
use pocket_mo_e.Prelude.Int.{ℤ}
use pocket_mo_e.Serving.{QueuedRequest, is_batch_compatible}
use pocket_mo_e.Serving.Worker.{
  Poll, late, waits, Collected, Turn, stop, go, give_back, consider, get_from, turn, collect,
  collect_batch, after_turn,
}

module _ {V : Type 0} (same : Option V → Option V → Bool) (limit : ℤ) (max_running : ℕ) where
  -- A batch that `first` may lead: not too long, and all the others fit it.
  abbrev pub IsBatch : QueuedRequest V → List (QueuedRequest V) → Type 0
  IsBatch first [] = ⊥
  IsBatch first (r ∷ rs) =
      (r ≡ first)
      × ((length (r ∷ rs) ≤ max_running) × All (λ c. is_batch_compatible same first c ≡ true) rs)

  abbrev pub TurnIsBatch : QueuedRequest V → Turn V → Type 0
  TurnIsBatch first (stop c) = IsBatch first c.batch
  TurnIsBatch first (go batch queue) = IsBatch first batch

  All-last :
      (P : QueuedRequest V → Type 0) (rs : List (QueuedRequest V)) (r : QueuedRequest V)
      → All P rs
      → P r
      → All P (rs ++ r ∷ [])
  All-last P [] r a p = (p, tt)
  All-last P (x ∷ rs) r a p = (a.0, All-last P rs r a.1 p)

  extend-IsBatch :
      (first c : QueuedRequest V) (batch : List (QueuedRequest V))
      → length batch < max_running
      → is_batch_compatible same first c ≡ true
      → IsBatch first batch
      → IsBatch first (batch ++ c ∷ [])
  extend-IsBatch first c [] l h b = absurd b
  extend-IsBatch first c (r ∷ rs) l h b =
      (b.0, (omega (arith, l, length-append rs (c ∷ [])), All-last _ rs c b.1.1 h))

  give_back-batch :
      (item : Option (QueuedRequest V)) (batch : List (QueuedRequest V))
      → (queue : List (Option (QueuedRequest V)))
      → (give_back same limit max_running item batch queue).batch ≡ batch
  unfolding give_back
  give_back-batch item batch queue = ground arith

  consider-IsBatch :
      (first : QueuedRequest V) (item : Option (QueuedRequest V)) (batch : List (QueuedRequest V))
      → (queue refill : List (Option (QueuedRequest V))) → length batch < max_running
      → IsBatch first batch
      → TurnIsBatch first (consider same limit max_running first item batch queue refill)
  unfolding consider
  consider-IsBatch first none batch queue refill l b =
      subst (IsBatch first) (sym (give_back-batch none batch (queue ++ refill))) b
  consider-IsBatch first (some c) batch queue refill l b =
      elim (Bool-cases (c.stream || not (is_batch_compatible same first c))) [
        | inl t ↦
            rw t (subst (IsBatch first) (sym (give_back-batch (some c) batch (queue ++ refill))) b)
        | inr f ↦ rw f (extend-IsBatch first c batch l (ground arith) b)
      ]

  get_from-IsBatch :
      (first : QueuedRequest V) (batch : List (QueuedRequest V))
      → (queue refill : List (Option (QueuedRequest V))) → length batch < max_running
      → IsBatch first batch
      → TurnIsBatch first (get_from same limit max_running first batch queue refill)
  unfolding get_from
  get_from-IsBatch first batch [] refill l b = b
  get_from-IsBatch first batch (item ∷ queue) refill l b =
      consider-IsBatch first item batch queue refill l b

  turn-IsBatch :
      (first : QueuedRequest V) (poll : Poll V) (batch : List (QueuedRequest V))
      → (queue : List (Option (QueuedRequest V))) → IsBatch first batch
      → TurnIsBatch first (turn same limit max_running first poll batch queue)
  unfolding turn
  turn-IsBatch first late batch queue b = b
  turn-IsBatch first (waits arrivals refill) batch queue b =
      elim (Bool-cases (ltb (length batch) max_running)) [
        | inl t ↦ rw t (get_from-IsBatch first batch (queue ++ arrivals) refill (ground arith) b)
        | inr f ↦ rw f b
      ]

  after_turn-IsBatch :
      (first : QueuedRequest V) (t : Turn V)
      → (next : List (QueuedRequest V) → List (Option (QueuedRequest V)) → Collected V)
      → ((batch : List (QueuedRequest V)) (queue : List (Option (QueuedRequest V)))
          → IsBatch first batch
          → IsBatch first (next batch queue).batch)
      → TurnIsBatch first t
      → IsBatch first (after_turn t next).batch
  unfolding after_turn
  after_turn-IsBatch first (stop c) next n b = b
  after_turn-IsBatch first (go batch queue) next n b = n batch queue b

  collect-IsBatch :
      (first : QueuedRequest V) (polls : List (Poll V)) (batch : List (QueuedRequest V))
      → (queue : List (Option (QueuedRequest V))) → IsBatch first batch
      → IsBatch first (collect same limit max_running first polls batch queue).batch
  unfolding collect
  collect-IsBatch first [] batch queue b = b
  collect-IsBatch first (poll ∷ polls) batch queue b =
      after_turn-IsBatch first (turn same limit max_running first poll batch queue)
        (collect same limit max_running first polls) (collect-IsBatch first polls)
        (turn-IsBatch first poll batch queue b)

  -- Whatever the clock and the other threads do, the batch that `_collect_batch` makes begins with
  -- the request it was given, has at most `max_running_requests` requests where that is not 0, and
  -- each of the others is compatible with the first.
  pub collect_batch-IsBatch :
      (first : QueuedRequest V) (polls : List (Poll V))
      → (queue : List (Option (QueuedRequest V))) → 1 ≤ max_running
      → IsBatch first (collect_batch same limit max_running first polls queue).batch
  unfolding collect_batch
  collect_batch-IsBatch first polls queue l =
      collect-IsBatch first polls (first ∷ []) queue (refl, (l, tt))
