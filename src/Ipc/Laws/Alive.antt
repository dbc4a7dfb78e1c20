-- ===== src/Ipc/Laws/Alive.antt =====
-- What keeps the processes of the protocol going (components/moe/ipc.py): nobody is stopped, the cells
-- of the acknowledgements are there, and hold what was acknowledged.
use pocket_mo_e.Prelude.{
  ℕ, suc, ◌*◌, ◌%◌, ◌≤◌, ◌<◌, List, some, get_elem?, set, length, length-set, get_elem?-set_self,
  get_elem?-set_ne, inl, inr, ◌≡◌, ◌≢◌, refl, ap, sym, subst, ◌∙◌, nat_eq, ◌==◌, eq_of_beq,
  Bool-cases, arith,
}
use pocket_mo_e.Ipc.{
  Job, put, ack_cell, put_input, put_ids, put_weights, put_fields, put_request, put_layer, put_stop,
  put_response,
}
use pocket_mo_e.Ipc.Protocol.{
  Server, polling, computing, computed, responding, World, put_output, Step, begin_submit,
  write_input, write_ids, write_weights, write_fields, write_request, see_answer, copy_answer,
  take_request, load_input, load_ids, load_weights, write_part, write_output, read_header,
  rewrite_request, rewrite_layer, rewrite_stop, write_response, rank_sees, rank_copies, rank_acks,
}
use pocket_mo_e.Ipc.Laws.Slots.{put_same, put_cases, le_or_lt}
use pocket_mo_e.Ipc.Laws.Acks.{cell_rank, cells_apart}
use pocket_mo_e.Ipc.Laws.Sound.{IsSound, ack_cases}

-- a header that the server is to write back does not stop anybody
abbrev pub RepliesGo : {T : Type 0} → Server T → Type 0
RepliesGo (polling last) = Unit
RepliesGo (computing load seq job) = Unit
RepliesGo (computed seq) = Unit
RepliesGo (responding stage seq request layer stop) = stop ≡ 0

-- A rank from 1 on sees one answer beyond those it acknowledged at most, and the cell of an answer
-- that it acknowledged holds that number or a later one.
pub record Cells (ranks slots world_size : ℕ) (acks : List ℕ) (seen acked : ℕ → ℕ) : Type 0 where
  pub whole : length acks ≡ slots * ranks
  pub near : (rank : ℕ) → 1 ≤ rank → seen rank ≤ suc (acked rank)
  pub hold :
      (rank seq a : ℕ)
      → 1 ≤ rank
      → rank < world_size
      → seq ≤ acked rank
      → get_elem? acks (ack_cell ranks (seq % slots) rank) ≡ some a
      → seq ≤ a

module _ {ranks slots world_size : ℕ} {acks : List ℕ} {seen acked : ℕ → ℕ}
    (cells : Cells ranks slots world_size acks seen acked) where
  Cells-see :
      (rank seq : ℕ)
      → ((1 ≤ rank) → seq ≤ suc (acked rank))
      → Cells ranks slots world_size acks (put seen rank seq) acked
  Cells-see rank seq le = record {
    whole = cells.whole;
    near = λ r one. elim (put_cases seen rank r seq) [
      | inl (same, e) ↦
          subst (λ k. k ≤ suc (acked r)) (sym e)
            (subst (λ r. seq ≤ suc (acked r)) (sym same) (le (subst (λ r. 1 ≤ r) same one)))
      | inr e ↦ omega (arith, cells.near r one, e)
    ];
    hold = cells.hold;
  }

  earlier :
      (rank n r seq : ℕ)
      → n ≤ suc (acked rank)
      → seq ≤ put acked rank n r
      → ack_cell ranks (seq % slots) r ≢ ack_cell ranks (n % slots) rank
      → seq ≤ acked r
  earlier rank n r seq next le apart = elim (put_cases acked rank r n) [
    | inl (same, e) ↦ elim (le_or_lt n seq) [
      | inl last ↦ let same_seq : seq ≡ n = omega (arith, le, e) in absurd (apart (cc))
      | inr before ↦ omega (arith, ap acked same)
    ]
    | inr e ↦ omega (arith, le, e)
  ]

  -- a rank acknowledges the answer after those it acknowledged
  Cells-ack :
      (rank n old : ℕ)
      → world_size ≤ ranks
      → 1 ≤ rank
      → rank < world_size
      → acked rank ≤ n
      → n ≤ suc (acked rank)
      → get_elem? acks (ack_cell ranks (n % slots) rank) ≡ some old
      → Cells ranks slots world_size
          (set acks (ack_cell ranks (n % slots) rank) n)
          seen
          (put acked rank n)
  Cells-ack rank n old in_row one lt later next there = record {
    whole = length-set acks (ack_cell ranks (n % slots) rank) n ∙ cells.whole;
    near = λ r one. elim (put_cases acked rank r n) [
      | inl (same, e) ↦ omega (arith, cells.near r one, e, ap acked same)
      | inr e ↦ omega (arith, cells.near r one, e)
    ];
    hold = λ r seq a one' in_world le found.
        elim (Bool-cases (ack_cell ranks (seq % slots) r == ack_cell ranks (n % slots) rank)) [
          | inl t ↦
              let e : ack_cell ranks (seq % slots) r ≡ ack_cell ranks (n % slots) rank =
                eq_of_beq _ _ t in
              let same : r ≡ rank =
                cell_rank ranks (seq % slots) r (n % slots) rank (omega arith) (omega arith) e in
              let new : get_elem? (set acks (ack_cell ranks (n % slots) rank) n)
                    (ack_cell ranks (seq % slots) r)
                  ≡ some n =
                ap (get_elem? (set acks (ack_cell ranks (n % slots) rank) n)) e
                ∙ get_elem?-set_self acks (ack_cell ranks (n % slots) rank) n there in
              let value : a ≡ n = cc in
              omega (arith, value, le, ap (put acked rank n) same, put_same acked rank n)
          | inr f ↦
              let before : get_elem? acks (ack_cell ranks (seq % slots) r) ≡ some a =
                sym (
                  get_elem?-set_ne acks (ack_cell ranks (n % slots) rank)
                    (ack_cell ranks (seq % slots) r) n (cells_apart _ _ f))
                ∙ found in
              cells.hold r seq a one' in_world (earlier rank n r seq next le (cells_apart _ _ f))
                before
        ];
  }

module _ {T : Type 0} (run : Job T → T) (ranks slots world_size : ℕ) where
  pub record IsAlive (w : World T) : Type 0 where
    pub runs : (w.memory.stop ≡ 0) × RepliesGo w.server
    pub cells : Cells ranks slots world_size w.memory.acks w.seen w.acked

  pub Step-IsAlive :
      {w u : World T}
      → world_size ≤ ranks
      → Step run ranks slots world_size w u
      → IsSound run ranks slots world_size w
      → IsAlive w
      → IsAlive u
  unfolding put_output put_input put_ids put_weights put_fields put_request put_layer put_stop
      put_response
  Step-IsAlive in_row (begin_submit w job e ready) s a = record { runs = a.runs; cells = a.cells }
  Step-IsAlive in_row (write_input w seq response job e) s a = record {
    runs = a.runs;
    cells = a.cells;
  }
  Step-IsAlive in_row (write_ids w seq response job e) s a = record {
    runs = a.runs;
    cells = a.cells;
  }
  Step-IsAlive in_row (write_weights w seq response job e) s a = record {
    runs = a.runs;
    cells = a.cells;
  }
  Step-IsAlive in_row (write_fields w seq response job e) s a = record {
    runs = (refl, a.runs.1);
    cells = a.cells;
  }
  Step-IsAlive in_row (write_request w seq response job e) s a = record {
    runs = a.runs;
    cells = a.cells;
  }
  Step-IsAlive in_row (see_answer w seq slot e answer) s a = record {
    runs = a.runs;
    cells = a.cells;
  }
  Step-IsAlive in_row (copy_answer w seq e) s a = record {
    runs = a.runs;
    cells = Cells-see a.cells 0 seq (λ one. absurd (omega arith));
  }
  Step-IsAlive in_row (take_request w last seq layer old e request) s a = record {
    runs = (a.runs.0, tt);
    cells = a.cells;
  }
  Step-IsAlive in_row (load_input w seq job e) s a = record {
    runs = (a.runs.0, tt);
    cells = a.cells;
  }
  Step-IsAlive in_row (load_ids w seq job e) s a = record { runs = (a.runs.0, tt); cells = a.cells }
  Step-IsAlive in_row (load_weights w seq job e) s a = record {
    runs = (a.runs.0, tt);
    cells = a.cells;
  }
  Step-IsAlive in_row (write_part w seq job part e) s a = record { runs = a.runs; cells = a.cells }
  Step-IsAlive in_row (write_output w seq job e) s a = record {
    runs = (a.runs.0, tt);
    cells = a.cells;
  }
  Step-IsAlive in_row (read_header w seq e) s a = record {
    runs = (a.runs.0, a.runs.0);
    cells = a.cells;
  }
  Step-IsAlive in_row (rewrite_request w seq request layer stop e) s a = record {
    runs = (a.runs.0, subst RepliesGo e a.runs.1);
    cells = a.cells;
  }
  Step-IsAlive in_row (rewrite_layer w seq request layer stop e) s a = record {
    runs = (a.runs.0, subst RepliesGo e a.runs.1);
    cells = a.cells;
  }
  Step-IsAlive in_row (rewrite_stop w seq request layer stop e) s a = record {
    runs = (subst RepliesGo e a.runs.1, subst RepliesGo e a.runs.1);
    cells = a.cells;
  }
  Step-IsAlive in_row (write_response w seq request layer stop e) s a = record {
    runs = (a.runs.0, tt);
    cells = a.cells;
  }
  Step-IsAlive in_row (rank_sees w rank slot one lt same answer) s a = record {
    runs = a.runs;
    cells = Cells-see a.cells rank (suc (w.read rank)) (λ one. omega arith);
  }
  Step-IsAlive in_row (rank_copies w rank one lt e) s a = record { runs = a.runs; cells = a.cells }
  Step-IsAlive in_row (rank_acks w rank memory one lt later acks) s a =
      let (old, there, e) = ack_cases ranks slots rank (w.read rank) w.memory memory acks in
      subst (λ m. IsAlive (record w { memory = m; acked = put w.acked rank (w.read rank) })) e
        (record {
          runs = a.runs;
          cells =
              Cells-ack a.cells rank (w.read rank) old in_row one lt (omega arith)
                (omega (arith, s.kept.read_le rank, a.cells.near rank one)) there;
        })
