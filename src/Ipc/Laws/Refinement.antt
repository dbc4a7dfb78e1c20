-- ===== src/Ipc/Laws/Refinement.antt =====
-- What the shared memory is for (components/moe/ipc.py): requests and answers take turns, and every
-- rank reads the answers in order. The protocol is an implementation of that.
use pocket_mo_e.Prelude.{ℕ, suc, ◌≤◌, ◌<◌, inl, inr, ◌⊎◌, ◌≡◌, refl, ap, sym, ◌∙◌}
use pocket_mo_e.Ipc.{
  Memory, Job, put, put_input, put_ids, put_weights, put_fields, put_request, put_layer, put_stop,
  put_response,
}
use pocket_mo_e.Ipc.Protocol.{
  World, put_output, Step, begin_submit, write_input, write_ids, write_weights, write_fields,
  write_request, see_answer, copy_answer, take_request, load_input, load_ids, load_weights,
  write_part, write_output, read_header, rewrite_request, rewrite_layer, rewrite_stop,
  write_response, rank_sees, rank_copies, rank_acks, Reach,
}
use pocket_mo_e.Ipc.Laws.Replies.{Turn-copying}
use pocket_mo_e.Ipc.Laws.Numbers.{Turn-submits, Turn-responds}
use pocket_mo_e.Ipc.Laws.Sound.{IsSound, client_at, server_at, seen_in_time, ack_cases}
use pocket_mo_e.Ipc.Laws.Safety.{initial, Reach-IsSound}

-- The abstract state: how many requests and answers there are, and how many each rank has read.
pub record View : Type 0 where
  pub requested : ℕ
  pub answered : ℕ
  pub taken : ℕ → ℕ

-- A request when none is open, its answer, and a rank that reads: rank 0 the answer of the last
-- request, another rank its next one.
pub data Turns (v u : View) : Type 0 where
  asks : v.requested ≡ v.answered → u ≡ record v { requested = suc v.requested } → Turns v u
  answers : suc v.answered ≡ v.requested → u ≡ record v { answered = suc v.answered } → Turns v u
  reads_last :
      v.answered ≡ v.requested → u ≡ record v { taken = put v.taken 0 v.requested } → Turns v u
  reads_next :
      (rank : ℕ)
      → v.taken rank < v.answered
      → u ≡ record v { taken = put v.taken rank (suc (v.taken rank)) }
      → Turns v u

abbrev pub view : {T : Type 0} → World T → View
view w = record {
  requested = w.memory.request_seq;
  answered = w.memory.response_seq;
  taken = w.read;
}

same_requested : (v : View) (r : ℕ) → r ≡ v.requested → v ≡ record v { requested = r }
same_requested v r e = cc

same_answered : (v : View) (a : ℕ) → a ≡ v.answered → v ≡ record v { answered = a }
same_answered v a e = cc

module _ {T : Type 0} (run : Job T → T) (ranks slots world_size : ℕ) where
  Step-Turns :
      {w u : World T}
      → Step run ranks slots world_size w u
      → IsSound run ranks slots world_size w
      → Turns (view w) (view u) ⊎ (view w ≡ view u)
  unfolding put_output put_input put_ids put_weights put_fields put_request put_layer put_stop
      put_response
  Step-Turns (begin_submit w job e ready) s = inr refl
  Step-Turns (write_input w seq response job e) s = inr refl
  Step-Turns (write_ids w seq response job e) s = inr refl
  Step-Turns (write_weights w seq response job e) s = inr refl
  Step-Turns (write_fields w seq response job e) s =
      inr (
        same_answered (view w) response (Turn-submits (client_at run ranks slots world_size s e)).1)
  Step-Turns (write_request w seq response job e) s =
      let (next, same, free) = Turn-submits (client_at run ranks slots world_size s e) in
      inl (asks free (ap (λ r. record (view w) { requested = r }) next))
  Step-Turns (see_answer w seq slot e answer) s = inr refl
  Step-Turns (copy_answer w seq e) s =
      let (last, whole, there, asked) = Turn-copying (client_at run ranks slots world_size s e) in
      inl (
        reads_last (there ∙ sym asked)
          (ap (λ k. record (view w) { taken = put w.read 0 k }) (last ∙ whole ∙ sym asked)))
  Step-Turns (take_request w last seq layer old e request) s = inr refl
  Step-Turns (load_input w seq job e) s = inr refl
  Step-Turns (load_ids w seq job e) s = inr refl
  Step-Turns (load_weights w seq job e) s = inr refl
  Step-Turns (write_part w seq job part e) s = inr refl
  Step-Turns (write_output w seq job e) s = inr refl
  Step-Turns (read_header w seq e) s = inr refl
  Step-Turns (rewrite_request w seq request layer stop e) s =
      inr (
        same_requested (view w) request
          (Turn-responds (server_at run ranks slots world_size s e)).0)
  Step-Turns (rewrite_layer w seq request layer stop e) s = inr refl
  Step-Turns (rewrite_stop w seq request layer stop e) s = inr refl
  Step-Turns (write_response w seq request layer stop e) s =
      let (same, next, last) = Turn-responds (server_at run ranks slots world_size s e) in
      inl (answers (sym next ∙ last) (ap (λ a. record (view w) { answered = a }) next))
  Step-Turns (rank_sees w rank slot one lt same answer) s = inr refl
  Step-Turns (rank_copies w rank one lt e) s =
      inl (reads_next rank (seen_in_time run ranks slots world_size rank s one lt e).0 refl)
  Step-Turns (rank_acks w rank memory one lt later acks) s =
      let (old, there, e) = ack_cases ranks slots rank (w.read rank) w.memory memory acks in
      inr (ap (λ m. view (record w { memory = m })) e)

  -- With at least one output slot, and no more ranks than the cells of a row of acknowledgements,
  -- every step of a world that steps lead to from the memory's creation is a turn of the abstract
  -- protocol, or none of its business: a request goes out only when the one before is answered, an
  -- answer comes only to an open request, rank 0 reads the answer to the last request, and every other
  -- rank its next one.
  pub Reach-Turns :
      (m : Memory T) (jobs : ℕ → Job T) (w u : World T)
      → 0 < slots
      → world_size ≤ ranks
      → Reach run ranks slots world_size (initial ranks slots m jobs) w
      → Step run ranks slots world_size w u
      → Turns (view w) (view u) ⊎ (view w ≡ view u)
  Reach-Turns m jobs w u some_slot in_row r step =
      Step-Turns step (Reach-IsSound run ranks slots world_size m jobs w some_slot in_row r)
