-- ===== src/Serving/Worker.antt =====
-- The worker of the serving engine (server/engine.py): it collects a batch and settles it. What the
-- clock and the other threads do while it waits is a list of polls, one for each turn of the loop.
pub mod Batch
pub mod Settle
pub mod Tally
use pocket_mo_e.Prelude.{
  ℕ, zero, suc, List, [], ◌∷◌, ◌++◌, map, Option, none, some, Bool, true, false, not, ◌&&◌, ◌||◌,
  Result, ok, err, runtime_error, require, ◌>>◌, ◌>>=◌, ltb, length, if◌then◌else◌, ◌==◌, nat_eq,
}
use pocket_mo_e.Prelude.Int.{ℤ}
use pocket_mo_e.Prelude.Text.{Text, codes}
use pocket_mo_e.Serving.{Payload, QueuedRequest, Engine, full, is_batch_compatible}

-- A turn of the loop: the deadline has passed, or the worker waits. While it waits others put in
-- `arrivals`, and between its `get` and its `put_nowait` they put in `refill`.
pub data Poll (V : Type 0) : Type 0 where
  late : Poll V
  waits : (arrivals refill : List (Option (QueuedRequest V))) → Poll V

-- What `_collect_batch` leaves: the batch and the queue. When the queue is full the worker stops in
-- `put`, with the item it wants to give back in its hands: `in_hand`.
pub record Collected (V : Type 0) : Type 0 where
  pub batch : List (QueuedRequest V)
  pub queue : List (Option (QueuedRequest V))
  pub in_hand : Option (Option (QueuedRequest V))

-- A turn ends the loop or goes on with a batch and a queue.
pub data Turn (V : Type 0) : Type 0 where
  stop : Collected V → Turn V
  go : List (QueuedRequest V) → List (Option (QueuedRequest V)) → Turn V

after_turn :
    {V : Type 0}
    → Turn V
    → (List (QueuedRequest V) → List (Option (QueuedRequest V)) → Collected V)
    → Collected V
after_turn (stop c) next = c
after_turn (go batch queue) next = next batch queue

module _ {V : Type 0} (same : Option V → Option V → Bool) (limit : ℤ) (max_running : ℕ) where
  -- `put_nowait`, and `put` where the queue is full
  give_back :
      Option (QueuedRequest V)
      → List (QueuedRequest V)
      → List (Option (QueuedRequest V))
      → Collected V
  give_back item batch queue =
      if full limit queue
      then record { batch = batch; queue = queue; in_hand = some item }
      else record { batch = batch; queue = queue ++ item ∷ []; in_hand = none }

  -- a candidate: None and what does not fit go back into the queue
  consider :
      QueuedRequest V
      → Option (QueuedRequest V)
      → List (QueuedRequest V)
      → List (Option (QueuedRequest V))
      → List (Option (QueuedRequest V))
      → Turn V
  unfolding give_back
  consider first none batch queue refill = stop (give_back none batch (queue ++ refill))
  consider first (some candidate) batch queue refill =
      if candidate.stream || not (is_batch_compatible same first candidate)
      then stop (give_back (some candidate) batch (queue ++ refill))
      else go (batch ++ candidate ∷ []) (queue ++ refill)

  -- `get` raises Empty on an empty queue
  get_from :
      QueuedRequest V
      → List (QueuedRequest V)
      → List (Option (QueuedRequest V))
      → List (Option (QueuedRequest V))
      → Turn V
  unfolding consider
  get_from first batch [] refill = stop (record { batch = batch; queue = refill; in_hand = none })
  get_from first batch (item ∷ queue) refill = consider first item batch queue refill

  -- one turn of the loop
  turn :
      QueuedRequest V → Poll V → List (QueuedRequest V) → List (Option (QueuedRequest V)) → Turn V
  unfolding get_from
  turn first late batch queue = stop (record { batch = batch; queue = queue; in_hand = none })
  turn first (waits arrivals refill) batch queue =
      if ltb (length batch) max_running
      then get_from first batch (queue ++ arrivals) refill
      else stop (record { batch = batch; queue = queue ++ arrivals ++ refill; in_hand = none })

  -- the loop of `_collect_batch`, a turn for each poll
  unfoldable pub collect :
      QueuedRequest V
      → List (Poll V)
      → List (QueuedRequest V)
      → List (Option (QueuedRequest V))
      → Collected V
  unfolding turn after_turn
  collect first [] batch queue = record { batch = batch; queue = queue; in_hand = none }
  collect first (poll ∷ polls) batch queue =
      after_turn (turn first poll batch queue) (collect first polls)

  -- `_collect_batch`
  unfoldable pub collect_batch :
      QueuedRequest V → List (Poll V) → List (Option (QueuedRequest V)) → Collected V
  collect_batch first polls queue = collect first polls (first ∷ []) queue

-- `_batch_payload`; the values of the options are those of the first request
pub record BatchPayload (V : Type 0) : Type 0 where
  pub first_payload : Payload V
  pub op : Text
  pub batch_size : ℕ
  pub prompt_ids_batch : List (List ℕ)
  pub max_tokens_batch : List ℤ
  pub thinking_mode_batch : List (Option V)
  pub reasoning_effort_batch : List (Option V)
  pub request_ids_batch : List (Option V)
  pub profile_of_engine : Text
  pub engine_decode_first : Bool
  pub prompt_token_lengths_batch : List ℕ
  pub stream_batch : List Bool

option_batch : {V : Type 0} → Text → List (QueuedRequest V) → List (Option V)
option_batch key batch = map (λ r. r.payload.option_of key) batch

unfoldable pub batch_payload :
    {V : Type 0} → Engine V → Payload V → List (QueuedRequest V) → BatchPayload V
unfolding option_batch
batch_payload e first batch = record {
  first_payload = first;
  op = codes "chat_completion_batch";
  batch_size = length batch;
  prompt_ids_batch = map (λ r. r.payload.prompt_ids) batch;
  max_tokens_batch = map (λ r. r.payload.max_tokens) batch;
  thinking_mode_batch = option_batch (codes "thinking_mode") batch;
  reasoning_effort_batch = option_batch (codes "reasoning_effort") batch;
  request_ids_batch = option_batch (codes "request_id") batch;
  profile_of_engine = e.serving_profile;
  engine_decode_first = e.decode_first;
  prompt_token_lengths_batch = map (λ r. r.metadata.prompt_tokens) batch;
  stream_batch = map (λ r. r.metadata.streamed) batch;
}

-- `_broadcast_payload` with `_run_payload`, for a payload and for a batch, where what comes back
-- may be no list.
pub record Runner (V R : Type 0) : Type 0 where
  pub broadcast : Payload V → Result (Unit {0})
  pub run : Payload V → Result R
  pub broadcast_batch : BatchPayload V → Result (Unit {0})
  pub run_batch : BatchPayload V → Result (Option (List R))

module _ {V R : Type 0} (runner : Runner V R) where
  listed : List (QueuedRequest V) → Option (List R) → Result (List R)
  listed batch none = err runtime_error
  listed batch (some results) =
      if length results == length batch then ok results else err runtime_error

  -- `zip(batch, results)` with `set_result`
  set_results : List (QueuedRequest V) → List R → List (ℕ × Result R)
  set_results [] results = []
  set_results (r ∷ rs) [] = []
  set_results (r ∷ rs) (x ∷ xs) = (r.result, ok x) ∷ set_results rs xs

  outcomes : List (QueuedRequest V) → Result (List R) → List (ℕ × Result R)
  unfolding set_results
  outcomes batch (ok results) = set_results batch results
  outcomes batch (err e) = map (λ r. (r.result, err e)) batch

  -- The end of `_run` for a batch that is not streamed: what each result is set to.
  unfoldable pub settle : Engine V → List (QueuedRequest V) → List (ℕ × Result R)
  unfolding listed outcomes
  settle e [] = []
  settle e (r ∷ []) = (r.result, runner.broadcast r.payload >> runner.run r.payload) ∷ []
  settle e (r ∷ s ∷ rs) =
      let batch = r ∷ s ∷ rs in
      let payload = batch_payload e r.payload batch in
      outcomes batch (runner.broadcast_batch payload >> (runner.run_batch payload >>= listed batch))
