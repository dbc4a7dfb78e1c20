-- ===== src/Ipc/Laws/Exchange.antt =====
-- One exchange over the shared memory (components/moe/ipc.py): `submit` of rank 0, the waits of both
-- sides, and `respond` of the server.
use pocket_mo_e.Prelude.{ℕ}
use pocket_mo_e.Ipc.{Memory, Job, submit, respond}

module _ {T : Type 0} where
  abbrev number_of : Job T → Memory T → ℕ
  number_of job m = (submit job m).0

  abbrev submitted : Job T → Memory T → Memory T
  submitted job m = (submit job m).1

  abbrev responded : Job T → Memory T → Memory T
  responded job m = respond (number_of job m) (submitted job m)
