-- ===== src/Ipc/Laws/Steps.antt =====
-- Every step of the protocol keeps what holds of every world (components/moe/ipc.py).
use pocket_mo_e.Prelude.{ℕ, suc, ◌+◌, ◌-◌, ◌%◌, ◌≤◌, ◌<◌, some, ◌≡◌, ◌∙◌, sym, subst, arith}
use pocket_mo_e.Ipc.{
  Job, put, put_input, put_ids, put_weights, put_fields, put_request, put_layer, put_stop,
  put_response,
}
use pocket_mo_e.Ipc.Protocol.{
  copying, request_written, layer_written, stop_written, computing, nothing_loaded, World,
  put_output, Step, begin_submit, write_input, write_ids, write_weights, write_fields,
  write_request, see_answer, copy_answer, take_request, load_input, load_ids, load_weights,
  write_part, write_output, read_header, rewrite_request, rewrite_layer, rewrite_stop,
  write_response, rank_sees, rank_copies, rank_acks,
}
use pocket_mo_e.Ipc.Laws.Turns.{
  Turn, Turn-le, Turn-begin, Turn-input, Turn-ids, Turn-weights, Turn-fields, Turn-request,
}
use pocket_mo_e.Ipc.Laws.Replies.{
  Turn-answer, Turn-copied, Turn-copying, Turn-take, Turn-load_input, Turn-load_ids,
  Turn-load_weights, Turn-job, Turn-part, Turn-compute, Turn-header, Turn-rewrite, Turn-layer,
  Turn-stop, Turn-response, Turn-acks, Turn-filled,
}
use pocket_mo_e.Ipc.Laws.Numbers.{Turn-idle, Turn-submits, Turn-responds}
use pocket_mo_e.Ipc.Laws.Slots.{
  put_same, Kept, Kept-job, Kept-part, Kept-compute, Kept-answered, Kept-see, Kept-copy,
}
use pocket_mo_e.Ipc.Laws.Acks.{slot_acked-le, Kept-claim, Kept-ack}
use pocket_mo_e.Ipc.Laws.Sound.{
  IsSound, client_at, server_at, seen_in_time, polled, taken, ack_cases,
}

module _ {T : Type 0} (run : Job T → T) (ranks slots world_size : ℕ) where
  copies :
      {w : World T} (seq : ℕ)
      → 0 < slots
      → IsSound run ranks slots world_size w
      → w.client ≡ copying seq
      → Kept run ranks slots world_size w.memory.outputs w.memory.acks w.jobs w.claimed w.written
          w.memory.response_seq
          (put w.seen 0 seq)
          (put w.read 0 seq)
          w.acked
          (put w.got 0 (some (w.memory.outputs (seq % slots))))
  copies {w} seq some_slot s e =
      let (last, whole, there, asked) = Turn-copying (client_at run ranks slots world_size s e) in
      Kept-copy
        (Kept-see s.kept 0 seq (omega (arith, s.kept.read_le 0, s.kept.seen_le 0)) (omega arith)) 0
        seq (omega (arith, s.kept.read_le 0, s.kept.seen_le 0)) (sym (put_same w.seen 0 seq))
        (omega arith) (omega arith)

  pub Step-IsSound :
      {w u : World T}
      → 0 < slots
      → world_size ≤ ranks
      → Step run ranks slots world_size w u
      → IsSound run ranks slots world_size w
      → IsSound run ranks slots world_size u
  unfolding put_output put_input put_ids put_weights put_fields put_request put_layer put_stop
      put_response
  Step-IsSound some_slot in_row (begin_submit w job e ready) s = record {
    turn = Turn-begin job (client_at run ranks slots world_size s e);
    kept =
        Kept-claim s.kept (w.memory.request_seq + 1)
          (omega (arith, Turn-idle (client_at run ranks slots world_size s e)))
          (λ rank le lt.
            slot_acked-le ranks slots (w.memory.request_seq + 1 - slots) world_size rank w.memory
              ready le lt);
  }
  Step-IsSound some_slot in_row (write_input w seq response job e) s = record {
    turn = Turn-input (client_at run ranks slots world_size s e);
    kept = s.kept;
  }
  Step-IsSound some_slot in_row (write_ids w seq response job e) s = record {
    turn = Turn-ids (client_at run ranks slots world_size s e);
    kept = s.kept;
  }
  Step-IsSound some_slot in_row (write_weights w seq response job e) s = record {
    turn = Turn-weights (client_at run ranks slots world_size s e);
    kept = s.kept;
  }
  Step-IsSound some_slot in_row (write_fields w seq response job e) s = record {
    turn = Turn-fields (client_at run ranks slots world_size s e);
    kept =
        Kept-answered s.kept response
          (omega (arith, Turn-submits (client_at run ranks slots world_size s e)));
  }
  Step-IsSound some_slot in_row (write_request w seq response job e) s = record {
    turn = Turn-request (client_at run ranks slots world_size s e);
    kept =
        Kept-job s.kept seq job
          (omega (arith, Turn-filled (client_at run ranks slots world_size s e)))
          (omega (arith, Turn-filled (client_at run ranks slots world_size s e), Turn-le s.turn));
  }
  Step-IsSound some_slot in_row (see_answer w seq slot e answer) s = record {
    turn =
        Turn-answer (client_at run ranks slots world_size s e)
          (polled slots seq slot w.memory answer);
    kept = s.kept;
  }
  Step-IsSound some_slot in_row (copy_answer w seq e) s = record {
    turn = Turn-copied (client_at run ranks slots world_size s e);
    kept = copies seq some_slot s e;
  }
  Step-IsSound some_slot in_row (take_request w last seq layer old e request) s =
      let (lt, same, l) = taken last seq layer w.memory request in
      record {
        turn =
            subst
              (λ q.
                Turn w.memory w.jobs w.claimed w.written w.client
                  (computing nothing_loaded q (record old { layer = layer })))
              same
              (subst
                (λ l.
                  Turn w.memory w.jobs w.claimed w.written w.client
                    (computing nothing_loaded w.memory.request_seq (record old { layer = l })))
                l (Turn-take old (server_at run ranks slots world_size s e) lt));
        kept = s.kept;
      }
  Step-IsSound some_slot in_row (load_input w seq job e) s = record {
    turn = Turn-load_input (server_at run ranks slots world_size s e);
    kept = s.kept;
  }
  Step-IsSound some_slot in_row (load_ids w seq job e) s = record {
    turn = Turn-load_ids (server_at run ranks slots world_size s e);
    kept = s.kept;
  }
  Step-IsSound some_slot in_row (load_weights w seq job e) s = record {
    turn = Turn-load_weights (server_at run ranks slots world_size s e);
    kept = s.kept;
  }
  Step-IsSound some_slot in_row (write_part w seq job part e) s =
      let (next, whole, own) = Turn-job (server_at run ranks slots world_size s e) in
      record {
        turn =
            subst
              (λ c. Turn (put_output slots seq part w.memory) w.jobs w.claimed w.written w.client c)
              (sym e) (Turn-part _ (server_at run ranks slots world_size s e));
        kept =
            subst
              (λ q.
                Kept run ranks slots world_size (put w.memory.outputs (q % slots) part)
                  w.memory.acks w.jobs w.claimed w.written w.memory.response_seq w.seen w.read
                  w.acked w.got)
              (whole ∙ sym next) (Kept-part s.kept part whole);
      }
  Step-IsSound some_slot in_row (write_output w seq job e) s =
      let (next, whole, own) = Turn-job (server_at run ranks slots world_size s e) in
      record {
        turn = Turn-compute _ (server_at run ranks slots world_size s e);
        kept =
            subst
              (λ j.
                Kept run ranks slots world_size (put w.memory.outputs (seq % slots) (run j))
                  w.memory.acks w.jobs w.claimed seq w.memory.response_seq w.seen w.read w.acked
                  w.got)
              (sym own)
              (subst
                (λ q.
                  Kept run ranks slots world_size
                    (put w.memory.outputs (q % slots) (run (w.jobs q))) w.memory.acks w.jobs
                    w.claimed q w.memory.response_seq w.seen w.read w.acked w.got)
                (whole ∙ sym next) (Kept-compute s.kept whole));
      }
  Step-IsSound some_slot in_row (read_header w seq e) s = record {
    turn = Turn-header (server_at run ranks slots world_size s e);
    kept = s.kept;
  }
  Step-IsSound some_slot in_row (rewrite_request w seq request layer stop e) s = record {
    turn = Turn-rewrite request_written (server_at run ranks slots world_size s e);
    kept = s.kept;
  }
  Step-IsSound some_slot in_row (rewrite_layer w seq request layer stop e) s = record {
    turn = Turn-layer layer_written (server_at run ranks slots world_size s e);
    kept = s.kept;
  }
  Step-IsSound some_slot in_row (rewrite_stop w seq request layer stop e) s = record {
    turn = Turn-stop stop_written (server_at run ranks slots world_size s e);
    kept = s.kept;
  }
  Step-IsSound some_slot in_row (write_response w seq request layer stop e) s = record {
    turn = Turn-response (server_at run ranks slots world_size s e);
    kept =
        Kept-answered s.kept seq
          (omega (arith, Turn-responds (server_at run ranks slots world_size s e)));
  }
  Step-IsSound some_slot in_row (rank_sees w rank slot one lt same answer) s = record {
    turn = s.turn;
    kept =
        Kept-see s.kept rank (suc (w.read rank)) (omega arith)
          (polled slots (suc (w.read rank)) slot w.memory answer);
  }
  Step-IsSound some_slot in_row (rank_copies w rank one lt e) s =
      let (there, written, near) = seen_in_time run ranks slots world_size rank s one lt e in
      record {
        turn = s.turn;
        kept = Kept-copy s.kept rank (suc (w.read rank)) (omega arith) (sym e) written near;
      }
  Step-IsSound some_slot in_row (rank_acks w rank memory one lt later acks) s =
      let (old, there, e) = ack_cases ranks slots rank (w.read rank) w.memory memory acks in
      subst
        (λ m.
          IsSound run ranks slots world_size
            (record w { memory = m; acked = put w.acked rank (w.read rank) }))
        e
        (record {
          turn = Turn-acks _ s.turn;
          kept = Kept-ack s.kept rank (w.read rank % slots) old in_row lt there;
        })
