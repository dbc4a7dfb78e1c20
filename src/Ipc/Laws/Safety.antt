-- ===== src/Ipc/Laws/Safety.antt =====
-- Every rank gets the answer to the request whose number it waits for (components/moe/ipc.py), in
-- whatever order the processes take their steps.
use pocket_mo_e.Prelude.{ℕ, ◌*◌, ◌≤◌, ◌<◌, none, some, ◌≡◌, refl, arith}
use pocket_mo_e.Ipc.{Memory, Job, ack_cell, create, write_header}
use pocket_mo_e.Ipc.Protocol.{idle, polling, World, Reach, here, next}
use pocket_mo_e.Ipc.Laws.Turns.{at_rest}
use pocket_mo_e.Ipc.Laws.Acks.{get_elem?-replicate_zero}
use pocket_mo_e.Ipc.Laws.Sound.{IsSound}
use pocket_mo_e.Ipc.Laws.Steps.{Step-IsSound}

-- The world where the memory is created over `m`; no job is there yet, whatever `jobs` says.
abbrev pub initial : {T : Type 0} → (ranks slots : ℕ) → Memory T → (ℕ → Job T) → World T
initial ranks slots m jobs = record {
  memory = create ranks slots m;
  client = idle;
  server = polling 0;
  jobs = jobs;
  claimed = 0;
  written = 0;
  seen = λ rank. 0;
  read = λ rank. 0;
  acked = λ rank. 0;
  got = λ rank. none;
}

module _ {T : Type 0} (run : Job T → T) (ranks slots world_size : ℕ) where
  initial-IsSound :
      (m : Memory T) (jobs : ℕ → Job T)
      → IsSound run ranks slots world_size (initial ranks slots m jobs)
  unfolding create write_header
  initial-IsSound m jobs = record {
    turn = at_rest 0 (refl, refl, refl, refl);
    kept = record {
      acks_le = λ slot rank a one lt found.
          omega
            (arith, get_elem?-replicate_zero (slots * ranks) (ack_cell ranks slot rank) a found);
      acked_le = λ rank. omega arith;
      read_le = λ rank. omega arith;
      seen_le = λ rank. omega arith;
      claimed_le = λ rank one lt. omega arith;
      outputs_hold = λ k one le near. absurd (omega arith);
      got_hold = λ rank one. absurd (omega arith);
    };
  }

  -- every world that steps lead to from the memory's creation is sound
  pub Reach-IsSound :
      (m : Memory T) (jobs : ℕ → Job T) (w : World T)
      → 0 < slots
      → world_size ≤ ranks
      → Reach run ranks slots world_size (initial ranks slots m jobs) w
      → IsSound run ranks slots world_size w
  Reach-IsSound m jobs w some_slot in_row here = initial-IsSound m jobs
  Reach-IsSound m jobs w some_slot in_row (next r step) =
      Step-IsSound run ranks slots world_size some_slot in_row step
        (Reach-IsSound m jobs _ some_slot in_row r)

  -- With at least one output slot, and no more ranks than the cells of a row of acknowledgements,
  -- after any steps from the memory's creation, in any order, what a rank read last is what the server
  -- computes for the job that was submitted under the number that the rank waited for: no answer is
  -- overwritten before every rank has copied it, and no request while the server reads it.
  pub Reach-answers :
      (m : Memory T) (jobs : ℕ → Job T) (w : World T) (rank : ℕ)
      → 0 < slots
      → world_size ≤ ranks
      → Reach run ranks slots world_size (initial ranks slots m jobs) w
      → 1 ≤ w.read rank
      → w.got rank ≡ some (run (w.jobs (w.read rank)))
  Reach-answers m jobs w rank some_slot in_row r one =
      (Reach-IsSound m jobs w some_slot in_row r).kept.got_hold rank one
