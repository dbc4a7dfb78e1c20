-- ===== src/Ipc/Laws/Progress.antt =====
-- The protocol never gets stuck (components/moe/ipc.py): some process can always go on.
use native.Mathlib.Nat.{mod-lt}
use pocket_mo_e.Prelude.{
  ℕ, suc, ◌+◌, ◌-◌, ◌*◌, ◌%◌, ◌≤◌, ◌<◌, length-replicate, inl, inr, ◌≡◌, ◌≢◌, ap, refl, nat_eq,
  arith,
}
use pocket_mo_e.Ipc.{Memory, Job, put, ack_cell, create, write_header}
use pocket_mo_e.Ipc.Protocol.{
  nothing_written, input_written, ids_written, weights_written, fields_written, Client, idle,
  header_read, request_written, layer_written, stop_written, nothing_loaded, input_loaded,
  ids_loaded, all_loaded, Server, World, Step, begin_submit, write_input, write_ids, write_weights,
  write_fields, write_request, see_answer, copy_answer, take_request, load_input, load_ids,
  load_weights, write_output, read_header, rewrite_request, rewrite_layer, rewrite_stop,
  write_response, rank_sees, rank_copies, rank_acks, Reach, here, next,
}
use pocket_mo_e.Ipc.Laws.Turns.{
  Turn, at_rest, in_submit, asked, answered, seen_answer, at_work, worked, in_respond,
}
use pocket_mo_e.Ipc.Laws.Slots.{put_same, le_or_lt}
use pocket_mo_e.Ipc.Laws.Sound.{IsSound}
use pocket_mo_e.Ipc.Laws.Safety.{initial, Reach-IsSound}
use pocket_mo_e.Ipc.Laws.Alive.{IsAlive, Step-IsAlive}
use pocket_mo_e.Ipc.Laws.Ready.{
  get_elem?-below, cell_below, slot_acked-cases, ack-there, poll_response-there, poll_request-there,
}

module _ {T : Type 0} (run : Job T → T) (ranks slots world_size : ℕ) where
  -- where the processes are in their code, and what the ranks have seen, copied and acknowledged
  abbrev pub places : World T → Client T × Server T × (ℕ → ℕ) × (ℕ → ℕ) × (ℕ → ℕ)
  places w = (w.client, w.server, w.seen, w.read, w.acked)

  -- some process can take a step that brings it on
  abbrev pub GoesOn : World T → Type 0
  GoesOn w = (u : World T) × Step run ranks slots world_size w u × (places w ≢ places u)

  client_moves :
      {w u : World T} → Step run ranks slots world_size w u → w.client ≢ u.client → GoesOn w
  client_moves {w} {u} step moved = (u, step, λ e. moved (ap (λ p. p.0) e))

  server_moves :
      {w u : World T} → Step run ranks slots world_size w u → w.server ≢ u.server → GoesOn w
  server_moves {w} {u} step moved = (u, step, λ e. moved (ap (λ p. p.1) e))

  -- a rank that has acknowledged less than there are answers sees, copies or acknowledges the next one
  rank_goes :
      (w : World T) (rank : ℕ)
      → 0 < slots
      → world_size ≤ ranks
      → IsSound run ranks slots world_size w
      → IsAlive run ranks slots world_size w
      → 1 ≤ rank
      → rank < world_size
      → w.acked rank < w.memory.response_seq
      → GoesOn w
  rank_goes w rank some_slot in_row s a one lt behind =
      elim (le_or_lt (w.read rank) (w.acked rank)) [
        | inr unacked ↦
            let (old, there) =
              get_elem?-below w.memory.acks (ack_cell ranks (w.read rank % slots) rank) (
                omega (
                  arith,
                  a.cells.whole,
                  cell_below ranks slots (w.read rank % slots) rank (mod-lt (w.read rank) some_slot)
                      (omega arith),
                )) in
            let (m, ready) = ack-there ranks slots rank (w.read rank) old w.memory there in
            (
              _,
              rank_acks w rank m one lt unacked ready,
              λ e.
                  let same : w.acked rank ≡ put w.acked rank (w.read rank) rank =
                    ap (λ p. p.4 rank) e in
                  absurd (omega (arith, same, put_same w.acked rank (w.read rank))),
            )
        | inl acked_all ↦ elim (le_or_lt (w.seen rank) (w.read rank)) [
          | inr uncopied ↦
              let next_seen : w.seen rank ≡ suc (w.read rank) =
                omega (arith, a.cells.near rank one, s.kept.acked_le rank) in
              (
                _,
                rank_copies w rank one lt next_seen,
                λ e.
                    let same : w.read rank ≡ put w.read rank (suc (w.read rank)) rank =
                      ap (λ p. p.3 rank) e in
                    absurd (omega (arith, same, put_same w.read rank (suc (w.read rank)))),
              )
          | inl copied_all ↦ (
            _,
            rank_sees w rank (suc (w.read rank) % slots) one lt
                (omega (arith, s.kept.acked_le rank))
                (poll_response-there slots (suc (w.read rank)) w.memory a.runs.0
                  (omega (arith, s.kept.acked_le rank))),
            λ e.
                let same : w.seen rank ≡ put w.seen rank (suc (w.read rank)) rank =
                  ap (λ p. p.2 rank) e in
                absurd (omega (arith, same, put_same w.seen rank (suc (w.read rank)))),
          )
        ]
      ]

  -- rank 0 at rest submits a job, or another rank is behind
  rest_goes :
      (w : World T) (job : Job T)
      → 0 < slots
      → world_size ≤ ranks
      → IsSound run ranks slots world_size w
      → IsAlive run ranks slots world_size w
      → w.client ≡ idle
      → w.memory.request_seq ≡ w.memory.response_seq
      → GoesOn w
  rest_goes w job some_slot in_row s a e all_answered =
      elim (slot_acked-cases ranks slots (w.memory.request_seq + 1 - slots) world_size w.memory
        some_slot in_row a.cells.whole) [
          | inl ready ↦ client_moves (begin_submit w job e ready) (λ same. cc)
          | inr (rank, old, one, lt, there, older) ↦
              rank_goes w rank some_slot in_row s a one lt
                (elim (le_or_lt (w.memory.request_seq + 1 - slots) (w.acked rank)) [
                  | inl le ↦ absurd (
                      omega (
                        arith,
                        a.cells.hold rank (w.memory.request_seq + 1 - slots) old one lt le there,
                      ))
                  | inr behind ↦ omega arith
                ])
        ]

  turn_goes :
      (w : World T) (job : Job T) {c : Client T} {sv : Server T}
      → 0 < slots
      → world_size ≤ ranks
      → IsSound run ranks slots world_size w
      → IsAlive run ranks slots world_size w
      → w.client ≡ c
      → w.server ≡ sv
      → Turn w.memory w.jobs w.claimed w.written c sv
      → GoesOn w
  turn_goes w job some_slot in_row s a e f (at_rest last h) =
      rest_goes w job some_slot in_row s a e (ground arith)
  turn_goes w job some_slot in_row s a e f (in_submit nothing_written seq response own last h l) =
      client_moves (write_input w seq response own e) (λ same. cc)
  turn_goes w job some_slot in_row s a e f (in_submit input_written seq response own last h l) =
      client_moves (write_ids w seq response own e) (λ same. cc)
  turn_goes w job some_slot in_row s a e f (in_submit ids_written seq response own last h l) =
      client_moves (write_weights w seq response own e) (λ same. cc)
  turn_goes w job some_slot in_row s a e f (in_submit weights_written seq response own last h l) =
      client_moves (write_fields w seq response own e) (λ same. cc)
  turn_goes w job some_slot in_row s a e f (in_submit fields_written seq response own last h l) =
      client_moves (write_request w seq response own e) (λ same. cc)
  turn_goes w job some_slot in_row s a e f (asked seq last h l) =
      server_moves
        (take_request w last w.memory.request_seq w.memory.layer_id job f
          (poll_request-there last w.memory a.runs.0 (ground arith)))
        (λ same. cc)
  turn_goes w job some_slot in_row s a e f (answered seq last h) =
      client_moves
        (see_answer w seq (seq % slots) e
          (poll_response-there slots seq w.memory a.runs.0 (ground arith)))
        (λ same. cc)
  turn_goes w job some_slot in_row s a e f (seen_answer seq last h) =
      client_moves (copy_answer w seq e) (λ same. cc)
  turn_goes w job some_slot in_row s a e f (at_work seq nothing_loaded q own h t l m) =
      server_moves (load_input w q own f) (λ same. cc)
  turn_goes w job some_slot in_row s a e f (at_work seq input_loaded q own h t l m) =
      server_moves (load_ids w q own f) (λ same. cc)
  turn_goes w job some_slot in_row s a e f (at_work seq ids_loaded q own h t l m) =
      server_moves (load_weights w q own f) (λ same. cc)
  turn_goes w job some_slot in_row s a e f (at_work seq all_loaded q own h t l m) =
      server_moves (write_output w q own f) (λ same. cc)
  turn_goes w job some_slot in_row s a e f (worked seq q h) =
      server_moves (read_header w q f) (λ same. cc)
  turn_goes w job some_slot in_row s a e f (in_respond seq header_read q request layer stop h) =
      server_moves (rewrite_request w q request layer stop f) (λ same. cc)
  turn_goes w job some_slot in_row s a e f (in_respond seq request_written q request layer stop h) =
      server_moves (rewrite_layer w q request layer stop f) (λ same. cc)
  turn_goes w job some_slot in_row s a e f (in_respond seq layer_written q request layer stop h) =
      server_moves (rewrite_stop w q request layer stop f) (λ same. cc)
  turn_goes w job some_slot in_row s a e f (in_respond seq stop_written q request layer stop h) =
      server_moves (write_response w q request layer stop f) (λ same. cc)

  initial-IsAlive :
      (m : Memory T) (jobs : ℕ → Job T)
      → IsAlive run ranks slots world_size (initial ranks slots m jobs)
  unfolding create write_header
  initial-IsAlive m jobs = record {
    runs = (refl, tt);
    cells = record {
      whole = length-replicate (slots * ranks) 0;
      near = λ rank one. omega arith;
      hold = λ rank seq a one lt le found. omega arith;
    };
  }

  Reach-IsAlive :
      (m : Memory T) (jobs : ℕ → Job T) (w : World T)
      → 0 < slots
      → world_size ≤ ranks
      → Reach run ranks slots world_size (initial ranks slots m jobs) w
      → IsAlive run ranks slots world_size w
  Reach-IsAlive m jobs w some_slot in_row here = initial-IsAlive m jobs
  Reach-IsAlive m jobs w some_slot in_row (next r step) =
      Step-IsAlive run ranks slots world_size in_row step
        (Reach-IsSound run ranks slots world_size m jobs _ some_slot in_row r)
        (Reach-IsAlive m jobs _ some_slot in_row r)

  -- With at least one output slot, and no more ranks than the cells of a row of acknowledgements, the
  -- processes are never all stuck: after any steps from the memory's creation, in any order, as long
  -- as there is a job to submit, some process can take a step that brings it on: rank 0 or the server
  -- to another place of its code, or another rank to see, copy or acknowledge its next answer.
  pub Reach-GoesOn :
      (m : Memory T) (jobs : ℕ → Job T) (w : World T) (job : Job T)
      → 0 < slots
      → world_size ≤ ranks
      → Reach run ranks slots world_size (initial ranks slots m jobs) w
      → GoesOn w
  Reach-GoesOn m jobs w job some_slot in_row r =
      let s = Reach-IsSound run ranks slots world_size m jobs w some_slot in_row r in
      turn_goes w job some_slot in_row s (Reach-IsAlive m jobs w some_slot in_row r) refl refl
        s.turn
