-- ===== src/Serving/Worker/Tally.antt =====
-- No request gets lost, and none is taken twice, while a batch is collected.
use pocket_mo_e.Prelude.{
  ℕ, ◌+◌, ◌≤◌, List, [], ◌∷◌, ◌++◌, Option, none, some, Bool, not, ◌||◌, ◌≡◌, arith, if◌then◌else◌,
  ltb, length, nat_eq, ◌==◌, Bool-cases, inl, inr,
}
use pocket_mo_e.Prelude.Int.{ℤ}
use pocket_mo_e.Serving.{QueuedRequest, is_batch_compatible}
use pocket_mo_e.Serving.Worker.{
  Poll, late, waits, Collected, Turn, stop, go, give_back, consider, get_from, turn, collect,
  collect_batch, after_turn,
}

module _ {V : Type 0} (n : ℕ) where
  -- how often request number `n` stands among requests, in a queue, and in an item
  unfoldable pub count : List (QueuedRequest V) → ℕ
  count [] = 0
  count (r ∷ rs) = (if r.result == n then 1 else 0) + count rs

  unfoldable pub count_item : Option (QueuedRequest V) → ℕ
  count_item none = 0
  count_item (some r) = if r.result == n then 1 else 0

  unfoldable pub count_queue : List (Option (QueuedRequest V)) → ℕ
  count_queue [] = 0
  count_queue (item ∷ items) = count_item item + count_queue items

  unfoldable pub count_in_hand : Option (Option (QueuedRequest V)) → ℕ
  count_in_hand none = 0
  count_in_hand (some item) = count_item item

  -- in the batch, the queue and the hands of the worker
  unfoldable pub count_collected : Collected V → ℕ
  count_collected c = count c.batch + (count_queue c.queue + count_in_hand c.in_hand)

  count-append : (xs ys : List (QueuedRequest V)) → count (xs ++ ys) ≡ count xs + count ys
  unfolding count
  count-append [] ys = omega arith
  count-append (x ∷ xs) ys = omega (arith, count-append xs ys)

  count_queue-append :
      (xs ys : List (Option (QueuedRequest V)))
      → count_queue (xs ++ ys) ≡ count_queue xs + count_queue ys
  unfolding count_queue
  count_queue-append [] ys = omega arith
  count_queue-append (x ∷ xs) ys = omega (arith, count_queue-append xs ys)

  -- what the other threads put in in one turn, and in all
  unfoldable pub count_poll : Poll V → ℕ
  count_poll late = 0
  count_poll (waits arrivals refill) = count_queue arrivals + count_queue refill

  unfoldable pub count_polls : List (Poll V) → ℕ
  count_polls [] = 0
  count_polls (poll ∷ polls) = count_poll poll + count_polls polls

  count_turn : Turn V → ℕ
  count_turn (stop c) = count_collected c
  count_turn (go batch queue) = count batch + count_queue queue

  count-one : (c : QueuedRequest V) → count (c ∷ []) ≡ count_item (some c)
  unfolding count count_item
  count-one c = omega arith

  module _ (same : Option V → Option V → Bool) (limit : ℤ) (max_running : ℕ) where
    count-give_back :
        (item : Option (QueuedRequest V)) (batch : List (QueuedRequest V))
        → (queue : List (Option (QueuedRequest V)))
        → count_collected (give_back same limit max_running item batch queue)
          ≡ count batch + (count_queue queue + count_item item)
    unfolding give_back count_collected count_in_hand count_queue
    count-give_back item batch queue = ground (arith, count_queue-append queue (item ∷ []))

    count-consider :
        (first : QueuedRequest V) (item : Option (QueuedRequest V)) (batch : List (QueuedRequest V))
        → (queue refill : List (Option (QueuedRequest V)))
        → count_turn (consider same limit max_running first item batch queue refill)
          ≡ count batch + (count_item item + (count_queue queue + count_queue refill))
    unfolding consider count_turn
    count-consider first none batch queue refill =
        omega (arith, count-give_back none batch (queue ++ refill), count_queue-append queue refill)
    count-consider first (some c) batch queue refill =
        elim (Bool-cases (c.stream || not (is_batch_compatible same first c))) [
          | inl t ↦ rw t (
              omega (
                arith,
                count-give_back (some c) batch (queue ++ refill),
                count_queue-append queue refill,
              ))
          | inr f ↦ rw f (
              omega
                (arith, count-append batch (c ∷ []), count-one c, count_queue-append queue refill))
        ]

    count-get_from :
        (first : QueuedRequest V) (batch : List (QueuedRequest V))
        → (queue refill : List (Option (QueuedRequest V)))
        → count_turn (get_from same limit max_running first batch queue refill)
          ≡ count batch + (count_queue queue + count_queue refill)
    unfolding get_from count_turn count_collected count_in_hand count_queue
    count-get_from first batch [] refill = omega arith
    count-get_from first batch (item ∷ queue) refill =
        omega (arith, count-consider first item batch queue refill)

    count-turn :
        (first : QueuedRequest V) (poll : Poll V) (batch : List (QueuedRequest V))
        → (queue : List (Option (QueuedRequest V)))
        → count_turn (turn same limit max_running first poll batch queue)
          ≡ count batch + (count_queue queue + count_poll poll)
    unfolding turn count_turn count_poll get_from count_collected count_in_hand
    count-turn first late batch queue = omega arith
    count-turn first (waits arrivals refill) batch queue =
        elim (Bool-cases (ltb (length batch) max_running)) [
          | inl t ↦ rw t (
              omega (
                arith,
                count-get_from first batch (queue ++ arrivals) refill,
                count_queue-append queue arrivals,
              ))
          | inr f ↦ rw f (
              omega (
                arith,
                count_queue-append (queue ++ arrivals) refill,
                count_queue-append queue arrivals,
              ))
        ]

    count-after_turn :
        (t : Turn V) (m polls : ℕ)
        → (next : List (QueuedRequest V) → List (Option (QueuedRequest V)) → Collected V)
        → ((batch : List (QueuedRequest V)) (queue : List (Option (QueuedRequest V)))
            → (count batch + count_queue queue ≤ count_collected (next batch queue))
              × (count_collected (next batch queue) ≤ count batch + (count_queue queue + polls)))
        → count_turn t ≡ m
        → (m ≤ count_collected (after_turn t next))
          × (count_collected (after_turn t next) ≤ m + polls)
    unfolding after_turn count_turn
    count-after_turn (stop c) m polls next k h = (omega (arith, h), omega (arith, h))
    count-after_turn (go batch queue) m polls next k h =
        (omega (arith, h, (k batch queue).0), omega (arith, h, (k batch queue).1))

    count-collect :
        (first : QueuedRequest V) (polls : List (Poll V)) (batch : List (QueuedRequest V))
        → (queue : List (Option (QueuedRequest V)))
        → (count batch + count_queue queue
            ≤ count_collected (collect same limit max_running first polls batch queue))
          × (count_collected (collect same limit max_running first polls batch queue)
              ≤ count batch + (count_queue queue + count_polls polls))
    unfolding collect count_polls count_collected count_in_hand
    count-collect first [] batch queue = (omega arith, omega arith)
    count-collect first (poll ∷ polls) batch queue =
        let r =
          count-after_turn (turn same limit max_running first poll batch queue)
            (count batch + (count_queue queue + count_poll poll)) (count_polls polls)
            (collect same limit max_running first polls) (count-collect first polls)
            (count-turn first poll batch queue) in
        (omega (arith, r.0), omega (arith, r.1))

    -- A request that nobody puts in while the batch is collected stands afterwards in the batch, in
    -- the queue or in the hands of the worker as often as it stood in the queue, and once more if
    -- it is the one the batch began with: none is lost and none is taken twice.
    pub collect_batch-keeps :
        (first : QueuedRequest V) (polls : List (Poll V))
        → (queue : List (Option (QueuedRequest V))) → count_polls polls ≡ 0
        → count_collected (collect_batch same limit max_running first polls queue)
          ≡ count_item (some first) + count_queue queue
    unfolding collect_batch
    collect_batch-keeps first polls queue h =
        let r = count-collect first polls (first ∷ []) queue in
        omega (arith, r.0, r.1, h, count-one first)
