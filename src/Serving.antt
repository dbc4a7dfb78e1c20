-- ===== src/Serving.antt =====
-- The serving engine (server/engine.py): the bounded queue of requests, what it lets in, and the
-- one worker that takes requests out, collects a batch and hands back the results. A request has a
-- number here, for the object it is. The values of a payload, how two of them compare, and what
-- runs a payload are parameters.
pub mod Worker
use pocket_mo_e.Prelude.{
  ℕ, zero, suc, ◌+◌, List, [], ◌∷◌, ◌++◌, map, Option, none, some, Bool, true, false, not, ◌&&◌,
  ◌||◌, Result, ok, err, runtime_error, require, ◌>>◌, ltb, leb, length, all, if◌then◌else◌, ◌==◌,
}
use pocket_mo_e.Prelude.Int.{ℤ, pos, negsuc, ◌+ℤ◌, ltb_ℤ, leb_ℤ, eqb_ℤ}
use pocket_mo_e.Prelude.Text.{Text, codes}

-- A payload: `_prompt_ids or []`, `int(max_tokens or 0)`, and `get` of any other key.
pub record Payload (V : Type 0) : Type 0 where
  pub prompt_ids : List ℕ
  pub max_tokens : ℤ
  pub option_of : Text → Option V

-- `_RequestMetadata`
pub record RequestMetadata : Type 0 where
  pub prompt_tokens : ℕ
  pub token_limit : ℤ
  pub streamed : Bool
  pub profile : Text
  pub decode_first : Bool

-- `_QueuedRequest`, with the number of its `_RequestResult`
pub record QueuedRequest (V : Type 0) : Type 0 where
  pub payload : Payload V
  pub stream : Bool
  pub result : ℕ
  pub metadata : RequestMetadata

-- The fields of `DeepSeekServingEngine`. In the queue, `none` is the mark that `close` leaves; the
-- model's `max_batch_size` is 1 where there is no model.
pub record Engine (V : Type 0) : Type 0 where
  pub max_queue : ℤ
  pub max_running_requests : ℕ
  pub max_total_tokens : ℤ
  pub serving_profile : Text
  pub decode_first : Bool
  pub model_max_batch : ℤ
  pub queue : List (Option (QueuedRequest V))
  pub closed : Bool
  pub results : ℕ

module _ {V : Type 0} where
  -- `queue.Full`: a bound of 0 or less is none
  unfoldable pub full : ℤ → List (Option (QueuedRequest V)) → Bool
  full limit queue = ltb_ℤ (pos 0) limit && leb_ℤ limit (pos (length queue))

  -- `_admit`
  unfoldable pub admit : Engine V → Payload V → Result (Unit {0})
  admit e payload =
      let total_tokens = pos (length payload.prompt_ids) +ℤ payload.max_tokens in
      if ltb_ℤ (pos 0) e.max_total_tokens && ltb_ℤ e.max_total_tokens total_tokens
      then err runtime_error
      else (if ltb 1 e.max_running_requests && ltb_ℤ e.model_max_batch (pos e.max_running_requests)
          then err runtime_error
          else ok tt)

  -- `_metadata`
  unfoldable pub metadata_of : Engine V → Payload V → Bool → RequestMetadata
  metadata_of e payload stream = record {
    prompt_tokens = length payload.prompt_ids;
    token_limit = payload.max_tokens;
    streamed = stream;
    profile = e.serving_profile;
    decode_first = e.decode_first;
  }

  new_request : Engine V → Payload V → Bool → QueuedRequest V
  new_request e payload stream = record {
    payload = payload;
    stream = stream;
    result = e.results;
    metadata = metadata_of e payload stream;
  }

  put_request : Engine V → QueuedRequest V → Result (QueuedRequest V × Engine V)
  put_request e request =
      if full e.max_queue e.queue
      then err runtime_error
      else ok (request, record e { queue = e.queue ++ some request ∷ []; results = suc e.results })

  -- `_enqueue`
  unfoldable pub enqueue : Engine V → Payload V → Bool → Result (QueuedRequest V × Engine V)
  unfolding new_request put_request
  enqueue e payload stream = do
    require (not e.closed) runtime_error
    admit e payload
    put_request e (new_request e payload stream)

  -- `close`, but for its wait for the worker
  unfoldable pub close : Engine V → Engine V
  close e = if e.closed then e else record e {
    closed = true;
    queue = if full e.max_queue e.queue then e.queue else e.queue ++ none ∷ [];
  }

-- `compare_keys`
abbrev pub compare_keys : List Text
compare_keys =
    codes "temperature"
    ∷ codes "top_p"
    ∷ codes "top_k"
    ∷ codes "min_p"
    ∷ codes "frequency_penalty"
    ∷ codes "presence_penalty"
    ∷ codes "repetition_penalty"
    ∷ codes "seed"
    ∷ codes "stop"
    ∷ codes "logprobs"
    ∷ codes "top_logprobs"
    ∷ codes "n"
    ∷ []

-- `_is_batch_compatible`; `same` is `==` on what `get` answers
unfoldable pub is_batch_compatible :
    {V : Type 0} → (Option V → Option V → Bool) → QueuedRequest V → QueuedRequest V → Bool
is_batch_compatible same first candidate =
    not candidate.stream
    && eqb_ℤ first.payload.max_tokens candidate.payload.max_tokens
    && all (λ key. same (first.payload.option_of key) (candidate.payload.option_of key))
        compare_keys
