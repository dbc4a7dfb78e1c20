-- ===== src/Ipc/Laws/Replies.antt =====
-- The turns that the server takes, and the answer that rank 0 takes (components/moe/ipc.py).
use pocket_mo_e.Prelude.{ℕ, suc, List, ◌≤◌, ◌<◌, ◌≡◌, sym, subst, ◌∙◌, nat_eq, arith}
use pocket_mo_e.Prelude.Int.{ℤ}
use pocket_mo_e.Ipc.{Memory, Job, put_request, put_layer, put_stop, put_response}
use pocket_mo_e.Ipc.Protocol.{
  Stage, nothing_written, input_written, ids_written, weights_written, fields_written, Client, idle,
  submitting, waiting, copying, Reply, header_read, nothing_loaded, input_loaded, ids_loaded,
  all_loaded, Server, polling, computing, computed, responding,
}
use pocket_mo_e.Ipc.Laws.Turns.{
  Turn, at_rest, in_submit, asked, answered, seen_answer, at_work, worked, in_respond,
}

module _ {T : Type 0} where
  job_ext :
      (own job : Job T)
      → (own.layer ≡ job.layer)
        × (own.input ≡ job.input)
        × (own.ids ≡ job.ids)
        × (own.weights ≡ job.weights)
      → own ≡ job
  job_ext own job h = cc

  module _ {m : Memory T} {jobs : ℕ → Job T} {c n : ℕ} where
    pub Turn-answer :
        {s : Server T} {seq : ℕ}
        → Turn m jobs c n (waiting seq) s
        → seq ≤ m.response_seq
        → Turn m jobs c n (copying seq) s
    Turn-answer (asked seq last h w) le = absurd (ground arith)
    Turn-answer (answered seq last h) le = seen_answer seq last h
    Turn-answer (at_work seq load q own h e l w) le = absurd (ground arith)
    Turn-answer (worked seq q h) le = absurd (ground arith)
    Turn-answer (in_respond seq stage q request layer stop h) le = absurd (ground arith)

    pub Turn-copied :
        {s : Server T} {seq : ℕ} → Turn m jobs c n (copying seq) s → Turn m jobs c n idle s
    Turn-copied (seen_answer seq last h) = at_rest last (ground arith, h.1, h.2, h.4)

    -- rank 0 copies the last answer there is
    pub Turn-copying :
        {s : Server T} {seq : ℕ}
        → Turn m jobs c n (copying seq) s
        → (seq ≡ c) × (c ≡ n) × (m.response_seq ≡ n) × (m.request_seq ≡ n)
    Turn-copying (seen_answer seq last h) = (h.3, h.4, h.1, h.0 ∙ h.4)

    pub Turn-take :
        {cl : Client T} {last : ℕ} (old : Job T)
        → Turn m jobs c n cl (polling last)
        → last < m.request_seq
        → Turn m jobs c n cl
            (computing nothing_loaded m.request_seq (record old { layer = m.layer_id }))
    Turn-take old (at_rest last h) lt = absurd (ground arith)
    Turn-take old (in_submit stage seq response job last h w) lt = absurd (ground arith)
    Turn-take old (asked seq last h w) lt =
        at_work seq nothing_loaded m.request_seq (record old { layer = m.layer_id })
          (h.0, h.1, h.0, h.3, h.4) w.0 tt w
    Turn-take old (answered seq last h) lt = absurd (ground arith)
    Turn-take old (seen_answer seq last h) lt = absurd (ground arith)

    pub Turn-load_input :
        {cl : Client T} {q : ℕ} {own : Job T}
        → Turn m jobs c n cl (computing nothing_loaded q own)
        → Turn m jobs c n cl (computing input_loaded q (record own { input = m.input }))
    Turn-load_input (at_work seq load q own h e l w) =
        at_work seq input_loaded q (record own { input = m.input }) h e w.1 w

    pub Turn-load_ids :
        {cl : Client T} {q : ℕ} {own : Job T}
        → Turn m jobs c n cl (computing input_loaded q own)
        → Turn m jobs c n cl (computing ids_loaded q (record own { ids = m.ids }))
    Turn-load_ids (at_work seq load q own h e l w) =
        at_work seq ids_loaded q (record own { ids = m.ids }) h e (l, w.2) w

    pub Turn-load_weights :
        {cl : Client T} {q : ℕ} {own : Job T}
        → Turn m jobs c n cl (computing ids_loaded q own)
        → Turn m jobs c n cl (computing all_loaded q (record own { weights = m.weights }))
    Turn-load_weights (at_work seq load q own h e l w) =
        at_work seq all_loaded q (record own { weights = m.weights }) h e (l.0, l.1, w.3) w

    -- the request that the server computes is the last one claimed, and it has read its job
    pub Turn-job :
        {cl : Client T} {q : ℕ} {own : Job T}
        → Turn m jobs c n cl (computing all_loaded q own)
        → (q ≡ suc n) × (c ≡ suc n) × (own ≡ jobs q)
    Turn-job (at_work seq load q own h e l w) = (
      ground arith,
      h.4,
      subst (λ k. own ≡ jobs k) (sym h.2) (job_ext own (jobs c) (e, l.0, l.1, l.2)),
    )

    pub Turn-part :
        {cl : Client T} {q : ℕ} {own : Job T} (outputs : ℕ → T)
        → Turn m jobs c n cl (computing all_loaded q own)
        → Turn (record m { outputs = outputs }) jobs c n cl (computing all_loaded q own)
    Turn-part outputs (at_work seq load q own h e l w) = at_work seq all_loaded q own h e l w

    pub Turn-compute :
        {cl : Client T} {q : ℕ} {own : Job T} (outputs : ℕ → T)
        → Turn m jobs c n cl (computing all_loaded q own)
        → Turn (record m { outputs = outputs }) jobs c q cl (computed q)
    Turn-compute outputs (at_work seq load q own h e l w) =
        worked seq q (h.0, ground arith, h.2, h.3, sym h.2)

    pub Turn-header :
        {cl : Client T} {q : ℕ}
        → Turn m jobs c n cl (computed q)
        → Turn m jobs c n cl (responding header_read q m.request_seq m.layer_id m.stop)
    Turn-header (worked seq q h) =
        in_respond seq header_read q m.request_seq m.layer_id m.stop (h.0, h.1, h.2, h.3, h.4, h.0)

    pub Turn-rewrite :
        {cl : Client T} {stage : Reply} {q request : ℕ} {layer : ℤ} {stop : ℕ} (next : Reply)
        → Turn m jobs c n cl (responding stage q request layer stop)
        → Turn (put_request request m) jobs c n cl (responding next q request layer stop)
    unfolding put_request
    Turn-rewrite next (in_respond seq stage q request layer stop h) =
        in_respond seq next q request layer stop (h.5, h.1, h.2, h.3, h.4, h.5)

    pub Turn-layer :
        {cl : Client T} {stage : Reply} {q request : ℕ} {layer : ℤ} {stop : ℕ} (next : Reply)
        → Turn m jobs c n cl (responding stage q request layer stop)
        → Turn (put_layer layer m) jobs c n cl (responding next q request layer stop)
    unfolding put_layer
    Turn-layer next (in_respond seq stage q request layer stop h) =
        in_respond seq next q request layer stop h

    pub Turn-stop :
        {cl : Client T} {stage : Reply} {q request : ℕ} {layer : ℤ} {stop : ℕ} (next : Reply)
        → Turn m jobs c n cl (responding stage q request layer stop)
        → Turn (put_stop stop m) jobs c n cl (responding next q request layer stop)
    unfolding put_stop
    Turn-stop next (in_respond seq stage q request layer stop h) =
        in_respond seq next q request layer stop h

    pub Turn-response :
        {cl : Client T} {stage : Reply} {q request : ℕ} {layer : ℤ} {stop : ℕ}
        → Turn m jobs c n cl (responding stage q request layer stop)
        → Turn (put_response q m) jobs c n cl (polling q)
    unfolding put_response
    Turn-response (in_respond seq stage q request layer stop h) =
        answered seq q (h.0, h.2 ∙ h.4, h.2 ∙ h.4, h.3, h.4)

    pub Turn-acks :
        {cl : Client T} {s : Server T} (acks : List ℕ)
        → Turn m jobs c n cl s
        → Turn (record m { acks = acks }) jobs c n cl s
    Turn-acks acks (at_rest last h) = at_rest last h
    Turn-acks acks (in_submit nothing_written seq response job last h w) =
        in_submit nothing_written seq response job last h w
    Turn-acks acks (in_submit input_written seq response job last h w) =
        in_submit input_written seq response job last h w
    Turn-acks acks (in_submit ids_written seq response job last h w) =
        in_submit ids_written seq response job last h w
    Turn-acks acks (in_submit weights_written seq response job last h w) =
        in_submit weights_written seq response job last h w
    Turn-acks acks (in_submit fields_written seq response job last h w) =
        in_submit fields_written seq response job last h w
    Turn-acks acks (asked seq last h w) = asked seq last h w
    Turn-acks acks (answered seq last h) = answered seq last h
    Turn-acks acks (seen_answer seq last h) = seen_answer seq last h
    Turn-acks acks (at_work seq load q own h e l w) = at_work seq load q own h e l w
    Turn-acks acks (worked seq q h) = worked seq q h
    Turn-acks acks (in_respond seq stage q request layer stop h) =
        in_respond seq stage q request layer stop h

    pub Turn-waiting : {s : Server T} {seq : ℕ} → Turn m jobs c n (waiting seq) s → seq ≡ c
    Turn-waiting (asked seq last h w) = h.3
    Turn-waiting (answered seq last h) = h.3
    Turn-waiting (at_work seq load q own h e l w) = h.3
    Turn-waiting (worked seq q h) = h.3
    Turn-waiting (in_respond seq stage q request layer stop h) = h.3

    pub Turn-filled :
        {s : Server T} {stage : Stage} {seq response : ℕ} {job : Job T}
        → Turn m jobs c n (submitting stage seq response job) s
        → seq ≡ suc n
    Turn-filled (in_submit stage seq response job last h w) = h.4
