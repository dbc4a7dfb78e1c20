-- ===== src/Ipc/Layout.antt =====
-- Where the fields of the shared memory lie (components/moe/ipc.py, `__init__`), in bytes; and that
-- they lie apart.
use native.Mathlib.Nat.{mul-le-mul_left, mul-le-mul_right}
use pocket_mo_e.Prelude.{ℕ, suc, ◌+◌, ◌*◌, ◌≤◌, ◌<◌, arith}

pub record Shape : Type 0 where
  pub dim : ℕ
  pub topk : ℕ
  pub output_slots : ℕ
  pub max_ack_ranks : ℕ

-- `_HEADER_SIZE`, of four numbers of eight bytes
abbrev pub header_size : ℕ
header_size = 32

abbrev pub input_bytes : Shape → ℕ
input_bytes s = s.dim * 4

abbrev pub ids_bytes : Shape → ℕ
ids_bytes s = s.topk * 8

abbrev pub weights_bytes : Shape → ℕ
weights_bytes s = s.topk * 4

abbrev pub output_bytes : Shape → ℕ
output_bytes s = s.dim * 4

abbrev pub ack_bytes : Shape → ℕ
ack_bytes s = s.output_slots * s.max_ack_ranks * 8

unfoldable pub size : Shape → ℕ
size s =
    header_size
    + input_bytes s
    + ids_bytes s
    + weights_bytes s
    + output_bytes s * s.output_slots
    + ack_bytes s

abbrev pub input_offset : ℕ
input_offset = header_size

abbrev pub ids_offset : Shape → ℕ
ids_offset s = input_offset + input_bytes s

abbrev pub weights_offset : Shape → ℕ
weights_offset s = ids_offset s + ids_bytes s

abbrev pub output_offset : Shape → ℕ
output_offset s = weights_offset s + weights_bytes s

abbrev pub ack_offset : Shape → ℕ
ack_offset s = output_offset s + output_bytes s * s.output_slots

-- where `output_tensor` begins, by its slot
unfoldable pub output_position : Shape → (slot : ℕ) → ℕ
output_position s slot = output_offset s + slot * output_bytes s

-- where `ack` writes, by its slot and rank
unfoldable pub ack_position : Shape → (slot rank : ℕ) → ℕ
ack_position s slot rank = ack_offset s + (slot * s.max_ack_ranks + rank) * 8

-- The output of a slot ends where the next slot's begins or before, and the last one's where the
-- acknowledgements begin.
pub output_position-apart :
    (s : Shape) (slot later : ℕ)
    → slot < later
    → later ≤ s.output_slots
    → (output_position s slot + output_bytes s ≤ output_position s later)
      × (output_position s later ≤ ack_offset s)
unfolding output_position
output_position-apart s slot later lt le =
    let before : suc slot * output_bytes s ≤ later * output_bytes s =
      mul-le-mul_right (output_bytes s) lt in
    let within : output_bytes s * later ≤ output_bytes s * s.output_slots =
      mul-le-mul_left (output_bytes s) le in
    (omega (arith, before), omega (arith, within))

-- For ranks below `_MAX_ACK_RANKS`, the acknowledgement of a slot ends where any of a later slot
-- begins or before, and all of them lie in the memory, after the outputs.
pub ack_position-apart :
    (s : Shape) (slot rank later other : ℕ)
    → slot < later
    → later < s.output_slots
    → rank < s.max_ack_ranks
    → other < s.max_ack_ranks
    → (ack_offset s ≤ ack_position s slot rank)
      × (ack_position s slot rank + 8 ≤ ack_position s later other)
      × (ack_position s later other + 8 ≤ size s)
unfolding ack_position size
ack_position-apart s slot rank later other before within in_row in_other_row =
    let rows : suc slot * s.max_ack_ranks ≤ later * s.max_ack_ranks =
      mul-le-mul_right s.max_ack_ranks before in
    let all_rows : suc later * s.max_ack_ranks ≤ s.output_slots * s.max_ack_ranks =
      mul-le-mul_right s.max_ack_ranks within in
    (omega arith, omega (arith, rows), omega (arith, all_rows))
