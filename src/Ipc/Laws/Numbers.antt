-- ===== src/Ipc/Laws/Numbers.antt =====
-- The numbers of a request and its answer in the header (components/moe/ipc.py).
use pocket_mo_e.Prelude.{ℕ, suc, ◌≡◌, arith}
use pocket_mo_e.Prelude.Int.{ℤ}
use pocket_mo_e.Ipc.{Memory, Job}
use pocket_mo_e.Ipc.Protocol.{Stage, Client, idle, submitting, Reply, Server, responding}
use pocket_mo_e.Ipc.Laws.Turns.{Turn, at_rest, in_submit, in_respond}

module _ {T : Type 0} {m : Memory T} {jobs : ℕ → Job T} {c n : ℕ} where
  pub Turn-idle : {s : Server T} → Turn m jobs c n idle s → c ≡ m.request_seq
  Turn-idle (at_rest last h) = ground arith

  pub Turn-submits :
      {s : Server T} {stage : Stage} {seq response : ℕ} {job : Job T}
      → Turn m jobs c n (submitting stage seq response job) s
      → (seq ≡ suc m.request_seq) × (response ≡ m.response_seq) × (m.request_seq ≡ m.response_seq)
  Turn-submits (in_submit stage seq response job last h w) =
      (ground arith, ground arith, ground arith)

  pub Turn-responds :
      {cl : Client T} {stage : Reply} {q request : ℕ} {layer : ℤ} {stop : ℕ}
      → Turn m jobs c n cl (responding stage q request layer stop)
      → (request ≡ m.request_seq) × (q ≡ suc m.response_seq) × (q ≡ m.request_seq)
  Turn-responds (in_respond seq stage q request layer stop h) =
      (ground arith, ground arith, ground arith)
