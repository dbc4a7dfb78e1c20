-- ===== src/Ipc/Protocol.antt =====
-- The ranks and the server at work on the shared memory (components/moe/ipc.py, with the loops of
-- models/deepseek_v4/moe_server.py and the calls of models/deepseek_v4/runtime.py): every write to
-- the memory and every tensor copied from it is a step, an output may stand half written, and the
-- steps of the processes come in any order. A round of a wait is a step. `jobs`, `claimed`,
-- `written`, `seen`, `read`, `acked` and `got` only record what happened.
use pocket_mo_e.Prelude.{ℕ, suc, ◌+◌, ◌-◌, ◌%◌, ◌≤◌, ◌<◌, Option, some, true, ok, ◌≡◌, nat_eq}
use pocket_mo_e.Prelude.Int.{ℤ}
use pocket_mo_e.Ipc.{
  Memory, Job, put, ack, slot_acked, put_input, put_ids, put_weights, put_fields, put_request,
  put_layer, put_stop, put_response, poll_response, poll_request,
}

-- how much of a request is written
pub data Stage : Type 0 where
  nothing_written input_written ids_written weights_written fields_written : Stage

-- Rank 0: at rest, inside `submit` with the header it read, waiting for an answer, or about to copy
-- the answer that it waited for.
pub data Client (T : Type 0) : Type 0 where
  idle : Client T
  submitting : Stage → (seq response : ℕ) → Job T → Client T
  waiting : (seq : ℕ) → Client T
  copying : (seq : ℕ) → Client T

-- how much of the header `respond` has written back
pub data Reply : Type 0 where
  header_read request_written layer_written stop_written : Reply

-- how much of a request the server has read
pub data Load : Type 0 where
  nothing_loaded input_loaded ids_loaded all_loaded : Load

-- The server: in `wait_request`, at a request with what it has read of it, with the answer written,
-- and inside `respond` with the header it read.
pub data Server (T : Type 0) : Type 0 where
  polling : (last_seq : ℕ) → Server T
  computing : Load → (seq : ℕ) → Job T → Server T
  computed : (seq : ℕ) → Server T
  responding : Reply → (seq request : ℕ) (layer : ℤ) (stop : ℕ) → Server T

pub record World (T : Type 0) : Type 0 where
  pub memory : Memory T
  pub client : Client T
  pub server : Server T
  pub jobs : ℕ → Job T
  pub claimed : ℕ
  pub written : ℕ
  pub seen : ℕ → ℕ
  pub read : ℕ → ℕ
  pub acked : ℕ → ℕ
  pub got : ℕ → Option T

-- the outputs with the one of `seq` written
unfoldable pub put_output : {T : Type 0} → (slots seq : ℕ) → T → Memory T → Memory T
put_output slots seq t m = record m { outputs = put m.outputs (seq % slots) t }

-- `run` is `run_forward_into` of the layers, `ranks` is `_MAX_ACK_RANKS`, `slots` the output slots
-- and `world_size` the ranks that there are.
module _ {T : Type 0} (run : Job T → T) (ranks slots world_size : ℕ) where
  pub data Step : World T → World T → Type 0 where
    -- rank 0, `_external_cpu_server_submit_decode` and `submit`
    begin_submit :
        (w : World T) (job : Job T)
        → w.client ≡ idle
        → slot_acked ranks slots (w.memory.request_seq + 1 - slots) world_size w.memory ≡ ok true
        → Step w (record w {
          client = submitting nothing_written (w.memory.request_seq + 1) w.memory.response_seq job;
          claimed = w.memory.request_seq + 1;
        })
    write_input :
        (w : World T) (seq response : ℕ) (job : Job T)
        → w.client ≡ submitting nothing_written seq response job
        → Step w (record w {
          memory = put_input job.input w.memory;
          client = submitting input_written seq response job;
        })
    write_ids :
        (w : World T) (seq response : ℕ) (job : Job T)
        → w.client ≡ submitting input_written seq response job
        → Step w (record w {
          memory = put_ids job.ids w.memory;
          client = submitting ids_written seq response job;
        })
    write_weights :
        (w : World T) (seq response : ℕ) (job : Job T)
        → w.client ≡ submitting ids_written seq response job
        → Step w (record w {
          memory = put_weights job.weights w.memory;
          client = submitting weights_written seq response job;
        })
    write_fields :
        (w : World T) (seq response : ℕ) (job : Job T)
        → w.client ≡ submitting weights_written seq response job
        → Step w (record w {
          memory = put_fields response job.layer w.memory;
          client = submitting fields_written seq response job;
        })
    write_request :
        (w : World T) (seq response : ℕ) (job : Job T)
        → w.client ≡ submitting fields_written seq response job
        → Step w (record w {
          memory = put_request seq w.memory;
          client = waiting seq;
          jobs = put w.jobs seq job;
        })
    -- rank 0, `_external_cpu_server_wait_decode`
    see_answer :
        (w : World T) (seq slot : ℕ)
        → w.client ≡ waiting seq
        → poll_response slots seq w.memory ≡ some (ok slot)
        → Step w (record w { client = copying seq })
    copy_answer :
        (w : World T) (seq : ℕ)
        → w.client ≡ copying seq
        → Step w (record w {
          client = idle;
          seen = put w.seen 0 seq;
          read = put w.read 0 seq;
          got = put w.got 0 (some (w.memory.outputs (seq % slots)));
        })
    -- The loop of the server, and `respond`. `old` is what its variables held before.
    take_request :
        (w : World T) (last seq : ℕ) (layer : ℤ) (old : Job T)
        → w.server ≡ polling last
        → poll_request last w.memory ≡ some (some (seq, layer))
        → Step w (record w { server = computing nothing_loaded seq (record old { layer = layer }) })
    load_input :
        (w : World T) (seq : ℕ) (job : Job T)
        → w.server ≡ computing nothing_loaded seq job
        → Step w (record w {
          server = computing input_loaded seq (record job { input = w.memory.input });
        })
    load_ids :
        (w : World T) (seq : ℕ) (job : Job T)
        → w.server ≡ computing input_loaded seq job
        → Step w
            (record w { server = computing ids_loaded seq (record job { ids = w.memory.ids }) })
    load_weights :
        (w : World T) (seq : ℕ) (job : Job T)
        → w.server ≡ computing ids_loaded seq job
        → Step w (record w {
          server = computing all_loaded seq (record job { weights = w.memory.weights });
        })
    write_part :
        (w : World T) (seq : ℕ) (job : Job T) (part : T)
        → w.server ≡ computing all_loaded seq job
        → Step w (record w { memory = put_output slots seq part w.memory })
    write_output :
        (w : World T) (seq : ℕ) (job : Job T)
        → w.server ≡ computing all_loaded seq job
        → Step w (record w {
          memory = put_output slots seq (run job) w.memory;
          server = computed seq;
          written = seq;
        })
    read_header :
        (w : World T) (seq : ℕ)
        → w.server ≡ computed seq
        → Step w (record w {
          server = responding header_read seq w.memory.request_seq w.memory.layer_id w.memory.stop;
        })
    rewrite_request :
        (w : World T) (seq request : ℕ) (layer : ℤ) (stop : ℕ)
        → w.server ≡ responding header_read seq request layer stop
        → Step w (record w {
          memory = put_request request w.memory;
          server = responding request_written seq request layer stop;
        })
    rewrite_layer :
        (w : World T) (seq request : ℕ) (layer : ℤ) (stop : ℕ)
        → w.server ≡ responding request_written seq request layer stop
        → Step w (record w {
          memory = put_layer layer w.memory;
          server = responding layer_written seq request layer stop;
        })
    rewrite_stop :
        (w : World T) (seq request : ℕ) (layer : ℤ) (stop : ℕ)
        → w.server ≡ responding layer_written seq request layer stop
        → Step w (record w {
          memory = put_stop stop w.memory;
          server = responding stop_written seq request layer stop;
        })
    write_response :
        (w : World T) (seq request : ℕ) (layer : ℤ) (stop : ℕ)
        → w.server ≡ responding stop_written seq request layer stop
        → Step w (record w { memory = put_response seq w.memory; server = polling seq })
    -- another rank sees that its next answer is there, copies it, and acknowledges it
    rank_sees :
        (w : World T) (rank slot : ℕ)
        → 1 ≤ rank
        → rank < world_size
        → w.acked rank ≡ w.read rank
        → poll_response slots (suc (w.read rank)) w.memory ≡ some (ok slot)
        → Step w (record w { seen = put w.seen rank (suc (w.read rank)) })
    rank_copies :
        (w : World T) (rank : ℕ)
        → 1 ≤ rank
        → rank < world_size
        → w.seen rank ≡ suc (w.read rank)
        → Step w (record w {
          read = put w.read rank (suc (w.read rank));
          got = put w.got rank (some (w.memory.outputs (suc (w.read rank) % slots)));
        })
    rank_acks :
        (w : World T) (rank : ℕ) (memory : Memory T)
        → 1 ≤ rank
        → rank < world_size
        → w.acked rank < w.read rank
        → ack ranks slots rank (w.read rank) w.memory ≡ ok memory
        → Step w (record w { memory = memory; acked = put w.acked rank (w.read rank) })

  -- the worlds that steps lead to
  pub data Reach (s : World T) : World T → Type 0 where
    here : Reach s s
    next : {t u : World T} → Reach s t → Step t u → Reach s u
