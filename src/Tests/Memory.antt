-- ===== src/Tests/Memory.antt =====
-- The theorems on the shared memory at concrete inputs.
use pocket_mo_e.Prelude.{ℕ, ◌+◌, ◌≤◌, [], some, ◌⊎◌, ◌≡◌, refl, arith}
use pocket_mo_e.Prelude.Int.{pos}
use pocket_mo_e.Ipc.{
  Memory, Job, ack, create, write_header, slot_acked, poll_response, poll_request, put, put_input,
  put_ids, put_weights, put_fields, put_request, put_layer, put_stop, put_response,
}
use pocket_mo_e.Ipc.Layout.{Shape, size, ack_offset, ack_position, ack_position-apart}
use pocket_mo_e.Ipc.Protocol.{
  World, Step, put_output, begin_submit, write_input, write_ids, write_weights, write_fields,
  write_request, see_answer, take_request, load_input, load_ids, load_weights, write_part,
  write_output, read_header, rewrite_request, rewrite_layer, rewrite_stop, write_response,
  rank_sees, rank_copies, rank_acks, Reach, here, next,
}
use pocket_mo_e.Ipc.Laws.Safety.{initial, Reach-answers}
use pocket_mo_e.Ipc.Laws.Progress.{GoesOn, Reach-GoesOn}
use pocket_mo_e.Ipc.Laws.Refinement.{Turns, view, Reach-Turns}

abbrev sum_job : Job ℕ → ℕ
sum_job job = job.input + job.ids + job.weights

abbrev blank : Memory ℕ
blank = record {
  request_seq = 0;
  response_seq = 0;
  layer_id = pos 0;
  stop = 0;
  input = 0;
  ids = 0;
  weights = 0;
  outputs = λ slot. 0;
  acks = [];
}

abbrev first_job : Job ℕ
first_job = record { layer = pos 3; input = 5; ids = 2; weights = 1 }

abbrev start : World ℕ
start = initial 2 2 blank (λ seq. first_job)

-- a request, its answer, and the other rank that copies and acknowledges it
abbrev round : (w : World ℕ) × Reach sum_job 2 2 2 start w
unfolding slot_acked ack create write_header put_input put_ids put_weights put_fields put_request
    put_layer put_stop put_response poll_response poll_request put_output put
round =
    let s1 = begin_submit start first_job refl refl in
    let s2 = write_input _ _ _ first_job refl in
    let s3 = write_ids _ _ _ first_job refl in
    let s4 = write_weights _ _ _ first_job refl in
    let s5 = write_fields _ _ _ first_job refl in
    let s6 = write_request _ _ _ first_job refl in
    let asked = next (next (next (next (next (next here s1) s2) s3) s4) s5) s6 in
    let s7 = take_request _ 0 1 (pos 3) first_job refl refl in
    let s8 = load_input _ 1 first_job refl in
    let s9 = load_ids _ 1 first_job refl in
    let s10 = load_weights _ 1 first_job refl in
    let s11 = write_part _ 1 first_job 6 refl in
    let s12 = write_output _ 1 first_job refl in
    let computed = next (next (next (next (next (next asked s7) s8) s9) s10) s11) s12 in
    let s13 = read_header _ 1 refl in
    let s14 = rewrite_request _ 1 _ _ _ refl in
    let s15 = rewrite_layer _ 1 _ _ _ refl in
    let s16 = rewrite_stop _ 1 _ _ _ refl in
    let s17 = write_response _ 1 _ _ _ refl in
    let answered = next (next (next (next (next computed s13) s14) s15) s16) s17 in
    let s18 = rank_sees _ 1 1 (omega arith) (omega arith) refl refl in
    let s19 = rank_copies _ 1 (omega arith) (omega arith) refl in
    let s20 = rank_acks _ 1 _ (omega arith) (omega arith) (omega arith) refl in
    (_, next (next (next answered s18) s19) s20)

Reach-answers_example : round.0.got 1 ≡ some (sum_job (round.0.jobs (round.0.read 1)))
unfolding put round
Reach-answers_example =
    Reach-answers sum_job 2 2 2 blank (λ seq. first_job) round.0 1 (omega arith) (omega arith)
      round.1 (omega arith)

-- rank 0 sees that the answer of the round is there
abbrev seen : (u : World ℕ) × Step sum_job 2 2 2 round.0 u
unfolding poll_response round
seen = (_, see_answer _ 1 1 refl refl)

Reach-Turns_example : Turns (view round.0) (view seen.0) ⊎ (view round.0 ≡ view seen.0)
Reach-Turns_example =
    Reach-Turns sum_job 2 2 2 blank (λ seq. first_job) round.0 seen.0 (omega arith) (omega arith)
      round.1 seen.1

Reach-GoesOn_example : GoesOn sum_job 2 2 2 round.0
Reach-GoesOn_example =
    Reach-GoesOn sum_job 2 2 2 blank (λ seq. first_job) round.0 first_job (omega arith)
      (omega arith) round.1

abbrev usual_shape : Shape
usual_shape = record { dim = 4096; topk = 6; output_slots = 64; max_ack_ranks = 8 }

ack_position-apart_example :
    (ack_offset usual_shape ≤ ack_position usual_shape 62 7)
    × (ack_position usual_shape 62 7 + 8 ≤ ack_position usual_shape 63 7)
    × (ack_position usual_shape 63 7 + 8 ≤ size usual_shape)
ack_position-apart_example =
    ack_position-apart usual_shape 62 7 63 7 (omega arith) (omega arith) (omega arith) (omega arith)
