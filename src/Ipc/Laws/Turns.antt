-- ===== src/Ipc/Laws/Turns.antt =====
-- Whose turn it is (components/moe/ipc.py): in every world of the protocol at most one of rank 0 and
-- the server writes the header, and the request is whole when the server reads it.
use pocket_mo_e.Prelude.{ℕ, suc, ◌+◌, ◌≤◌, ◌≡◌, refl, subst, nat_eq, beq_refl, arith}
use pocket_mo_e.Prelude.Int.{ℤ}
use pocket_mo_e.Ipc.{Memory, Job, put, put_input, put_ids, put_weights, put_fields, put_request}
use pocket_mo_e.Ipc.Protocol.{
  Stage, nothing_written, input_written, ids_written, weights_written, fields_written, Client, idle,
  submitting, waiting, copying, Reply, Load, nothing_loaded, input_loaded, ids_loaded, all_loaded,
  Server, polling, computing, computed, responding,
}

module _ {T : Type 0} where
  -- the memory holds the tensors and the layer of the job
  abbrev pub Holds : Job T → Memory T → Type 0
  Holds job m =
      (m.layer_id ≡ job.layer)
      × (m.input ≡ job.input)
      × (m.ids ≡ job.ids)
      × (m.weights ≡ job.weights)

  -- what is written of a job at each stage
  abbrev pub Written : Stage → Job T → Memory T → Type 0
  Written nothing_written job m = Unit
  Written input_written job m = m.input ≡ job.input
  Written ids_written job m = (m.input ≡ job.input) × (m.ids ≡ job.ids)
  Written weights_written job m =
      (m.input ≡ job.input) × (m.ids ≡ job.ids) × (m.weights ≡ job.weights)
  Written fields_written job m = Holds job m

  -- what the server has read of a job
  abbrev pub Loaded : Load → Job T → Job T → Type 0
  Loaded nothing_loaded own job = Unit
  Loaded input_loaded own job = own.input ≡ job.input
  Loaded ids_loaded own job = (own.input ≡ job.input) × (own.ids ≡ job.ids)
  Loaded all_loaded own job =
      (own.input ≡ job.input) × (own.ids ≡ job.ids) × (own.weights ≡ job.weights)

  -- The states of rank 0 and of the server that go together; `c` requests are claimed, `n` computed.
  pub data Turn (m : Memory T) (jobs : ℕ → Job T) (c n : ℕ) : Client T → Server T → Type 0 where
    at_rest :
        (last : ℕ)
        → (m.request_seq ≡ n) × (m.response_seq ≡ n) × (last ≡ n) × (c ≡ n)
        → Turn m jobs c n idle (polling last)
    in_submit :
        (stage : Stage) (seq response : ℕ) (job : Job T) (last : ℕ)
        → (m.request_seq ≡ n)
          × (m.response_seq ≡ n)
          × (last ≡ n)
          × (c ≡ suc n)
          × (seq ≡ suc n)
          × (response ≡ n)
        → Written stage job m
        → Turn m jobs c n (submitting stage seq response job) (polling last)
    asked :
        (seq last : ℕ)
        → (m.request_seq ≡ c) × (m.response_seq ≡ n) × (last ≡ n) × (seq ≡ c) × (c ≡ suc n)
        → Holds (jobs c) m
        → Turn m jobs c n (waiting seq) (polling last)
    answered :
        (seq last : ℕ)
        → (m.request_seq ≡ c) × (m.response_seq ≡ n) × (last ≡ n) × (seq ≡ c) × (c ≡ n)
        → Turn m jobs c n (waiting seq) (polling last)
    seen_answer :
        (seq last : ℕ)
        → (m.request_seq ≡ c) × (m.response_seq ≡ n) × (last ≡ n) × (seq ≡ c) × (c ≡ n)
        → Turn m jobs c n (copying seq) (polling last)
    at_work :
        (seq : ℕ) (load : Load) (q : ℕ) (own : Job T)
        → (m.request_seq ≡ c) × (m.response_seq ≡ n) × (q ≡ c) × (seq ≡ c) × (c ≡ suc n)
        → own.layer ≡ (jobs c).layer
        → Loaded load own (jobs c)
        → Holds (jobs c) m
        → Turn m jobs c n (waiting seq) (computing load q own)
    worked :
        (seq q : ℕ)
        → (m.request_seq ≡ c) × (suc m.response_seq ≡ n) × (q ≡ c) × (seq ≡ c) × (c ≡ n)
        → Turn m jobs c n (waiting seq) (computed q)
    in_respond :
        (seq : ℕ) (stage : Reply) (q request : ℕ) (layer : ℤ) (stop : ℕ)
        → (m.request_seq ≡ c)
          × (suc m.response_seq ≡ n)
          × (q ≡ c)
          × (seq ≡ c)
          × (c ≡ n)
          × (request ≡ c)
        → Turn m jobs c n (waiting seq) (responding stage q request layer stop)

  pub Turn-le :
      {m : Memory T} {jobs : ℕ → Job T} {c n : ℕ} {cl : Client T} {s : Server T}
      → Turn m jobs c n cl s
      → (n ≤ c) × (c ≤ suc n) × (m.response_seq ≤ n)
  Turn-le (at_rest last h) = (ground arith, ground arith, ground arith)
  Turn-le (in_submit stage seq response job last h w) = (ground arith, ground arith, ground arith)
  Turn-le (asked seq last h w) = (ground arith, ground arith, ground arith)
  Turn-le (answered seq last h) = (ground arith, ground arith, ground arith)
  Turn-le (seen_answer seq last h) = (ground arith, ground arith, ground arith)
  Turn-le (at_work seq load q own h e l w) = (ground arith, ground arith, ground arith)
  Turn-le (worked seq q h) = (ground arith, ground arith, ground arith)
  Turn-le (in_respond seq stage q request layer stop h) = (ground arith, ground arith, ground arith)

  module _ {m : Memory T} {jobs : ℕ → Job T} {c n : ℕ} where
    pub Turn-begin :
        {s : Server T} (job : Job T)
        → Turn m jobs c n idle s
        → Turn m jobs
            (m.request_seq + 1)
            n
            (submitting nothing_written (m.request_seq + 1) m.response_seq job)
            s
    Turn-begin job (at_rest last h) =
        in_submit nothing_written (m.request_seq + 1) m.response_seq job last
          (h.0, h.1, h.2, ground arith, ground arith, h.1) tt

    pub Turn-input :
        {s : Server T} {seq response : ℕ} {job : Job T}
        → Turn m jobs c n (submitting nothing_written seq response job) s
        → Turn (put_input job.input m) jobs c n (submitting input_written seq response job) s
    unfolding put_input
    Turn-input (in_submit stage seq response job last h w) =
        in_submit input_written seq response job last h refl

    pub Turn-ids :
        {s : Server T} {seq response : ℕ} {job : Job T}
        → Turn m jobs c n (submitting input_written seq response job) s
        → Turn (put_ids job.ids m) jobs c n (submitting ids_written seq response job) s
    unfolding put_ids
    Turn-ids (in_submit stage seq response job last h w) =
        in_submit ids_written seq response job last h (w, refl)

    pub Turn-weights :
        {s : Server T} {seq response : ℕ} {job : Job T}
        → Turn m jobs c n (submitting ids_written seq response job) s
        → Turn (put_weights job.weights m) jobs c n (submitting weights_written seq response job) s
    unfolding put_weights
    Turn-weights (in_submit stage seq response job last h w) =
        in_submit weights_written seq response job last h (w.0, w.1, refl)

    pub Turn-fields :
        {s : Server T} {seq response : ℕ} {job : Job T}
        → Turn m jobs c n (submitting weights_written seq response job) s
        → Turn
            (put_fields response job.layer m)
            jobs
            c
            n
            (submitting fields_written seq response job)
            s
    unfolding put_fields
    Turn-fields (in_submit stage seq response job last h w) =
        in_submit fields_written seq response job last (h.0, h.5, h.2, h.3, h.4, h.5)
          (refl, w.0, w.1, w.2)

    pub Turn-request :
        {s : Server T} {seq response : ℕ} {job : Job T}
        → Turn m jobs c n (submitting fields_written seq response job) s
        → Turn (put_request seq m) (put jobs seq job) c n (waiting seq) s
    unfolding put_request put
    Turn-request (in_submit stage seq response job last h w) =
        let same : seq ≡ c = ground arith in
        asked seq last (same, h.1, h.2, same, h.3)
          (subst (λ k. Holds (put jobs seq job k) (put_request seq m)) same (rw (beq_refl seq) w))
