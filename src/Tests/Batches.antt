-- ===== src/Tests/Batches.antt =====
-- The theorems on the serving engine at concrete inputs.
use mathlib.Core.Option
use pocket_mo_e.Prelude.{
  ℕ, ◌+◌, ◌≡◌, refl, List, [], ◌∷◌, get_elem?, Option, none, some, Bool, true, false, ok, arith,
}
use pocket_mo_e.Prelude.Int.{pos}
use pocket_mo_e.Prelude.Text.{codes}
use pocket_mo_e.Serving.{QueuedRequest, Engine}
use pocket_mo_e.Serving.Worker.{Poll, waits, Runner, collect_batch, settle}
use pocket_mo_e.Serving.Worker.Batch.{IsBatch, collect_batch-IsBatch}
use pocket_mo_e.Serving.Worker.Tally.{
  count_polls, count_poll, count_queue, count_item, count_collected, collect_batch-keeps,
}
use pocket_mo_e.Serving.Worker.Settle.{outcome_at, settle-every}

abbrev request : ℕ → Bool → QueuedRequest ℕ
request n streams = record {
  payload = record { prompt_ids = 5 ∷ []; max_tokens = pos 8; option_of = λ key. none };
  stream = streams;
  result = n;
  metadata = record {
    prompt_tokens = 1;
    token_limit = pos 8;
    streamed = streams;
    profile = codes "custom";
    decode_first = true;
  };
}

abbrev both_unset : Option ℕ → Option ℕ → Bool
both_unset none none = true
both_unset none (some b) = false
both_unset (some a) b = false

abbrev waiting : List (Option (QueuedRequest ℕ))
waiting = some (request 1 false) ∷ some (request 2 true) ∷ []

abbrev turns : List (Poll ℕ)
turns = waits [] [] ∷ waits [] [] ∷ []

nobody_submits : count_polls 1 turns ≡ 0
unfolding count_polls count_poll count_queue
nobody_submits = refl

collect_batch-keeps_example :
    count_collected 1 (collect_batch both_unset (pos 32) 4 (request 0 false) turns waiting)
    ≡ count_item 1 (some (request 0 false)) + count_queue 1 waiting
collect_batch-keeps_example =
    collect_batch-keeps 1 both_unset (pos 32) 4 (request 0 false) turns waiting nobody_submits

collect_batch-IsBatch_example :
    IsBatch both_unset
      (pos 32)
      4
      (request 0 false)
      (collect_batch both_unset (pos 32) 4 (request 0 false) turns waiting).batch
collect_batch-IsBatch_example =
    collect_batch-IsBatch both_unset (pos 32) 4 (request 0 false) turns waiting (omega arith)

abbrev echo : Runner ℕ ℕ
echo = record {
  broadcast = λ payload. ok tt;
  run = λ payload. ok 1;
  broadcast_batch = λ payload. ok tt;
  run_batch = λ payload. ok (some (1 ∷ 2 ∷ []));
}

abbrev engine : Engine ℕ
engine = record {
  max_queue = pos 32;
  max_running_requests = 4;
  max_total_tokens = pos 0;
  serving_profile = codes "custom";
  decode_first = true;
  model_max_batch = pos 4;
  queue = [];
  closed = false;
  results = 2;
}

settle-every_example :
    get_elem? (settle echo engine (request 0 false ∷ request 1 false ∷ [])) 1
    ≡ Option.map
        (λ r. (r.result, outcome_at echo engine (request 0 false ∷ request 1 false ∷ []) 1))
        (get_elem? (request 0 false ∷ request 1 false ∷ []) 1)
settle-every_example = settle-every echo engine (request 0 false ∷ request 1 false ∷ []) 1
