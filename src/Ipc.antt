-- ===== src/Ipc.antt =====
-- The memory that the ranks share with the server of the experts (components/moe/ipc.py). `T` is what
-- a tensor holds. A loop that waits is one round of it: `none` goes round once more. The numbers are
-- below 2 ^ 63, so that the header holds them.
pub mod Layout
pub mod Protocol
pub mod Laws
use pocket_mo_e.Prelude.{
  ℕ, ◌+◌, ◌-◌, ◌*◌, ◌%◌, List, [], ◌∷◌, Option, none, some, Bool, true, false, ◌&&◌, Result, ok,
  err, runtime_error, struct_error, get_elem?, set, replicate, range_from, leb, ltb, nat_eq, ◌==◌,
  if◌then◌else◌,
}
use pocket_mo_e.Prelude.Int.{ℤ, pos, negsuc}

-- The header, the tensors of a request, the slots of the outputs, and the cells of the
-- acknowledgements: a row of `_MAX_ACK_RANKS` for each slot, one row after the other.
pub record Memory (T : Type 0) : Type 0 where
  pub request_seq : ℕ
  pub response_seq : ℕ
  pub layer_id : ℤ
  pub stop : ℕ
  pub input : T
  pub ids : T
  pub weights : T
  pub outputs : ℕ → T
  pub acks : List ℕ

-- what a request carries
pub record Job (T : Type 0) : Type 0 where
  pub layer : ℤ
  pub input : T
  pub ids : T
  pub weights : T

-- the cell of a slot and a rank
abbrev pub ack_cell : (ranks slot rank : ℕ) → ℕ
ack_cell ranks slot rank = slot * ranks + rank

-- a function with one value changed
unfoldable pub put {ℓ} : {A : Type ℓ} → (ℕ → A) → ℕ → A → ℕ → A
put f i a j = if j == i then a else f j

abbrev not_zero : ℕ → Bool
not_zero n = ltb 0 n

-- whether the ranks have all acknowledged `seq` in the slot; the first that has not ends the look
unfoldable pub all_acked : (ranks slot seq : ℕ) → List ℕ → List ℕ → Result Bool
all_acked ranks slot seq cells [] = ok true
all_acked ranks slot seq cells (rank ∷ others) =
    let rest = all_acked ranks slot seq cells others in
    elim (get_elem? cells (ack_cell ranks slot rank)) [
      | none ↦ err struct_error
      | some seen ↦ if ltb seen seq then ok false else rest
    ]

module _ {T : Type 0} where
  -- `write_header`
  unfoldable pub write_header : ℕ → ℕ → ℤ → ℕ → Memory T → Memory T
  write_header request response layer stop m = record m {
    request_seq = request;
    response_seq = response;
    layer_id = layer;
    stop = stop;
  }

  -- the memory that is created over some contents, with `ranks` for `_MAX_ACK_RANKS`
  unfoldable pub create : (ranks slots : ℕ) → Memory T → Memory T
  create ranks slots m = record (write_header 0 0 (negsuc 0) 0 m) {
    acks = replicate (slots * ranks) 0;
  }

  -- `ack`; the cells are the end of the memory, and past it struct raises
  unfoldable pub ack : (ranks slots rank seq : ℕ) → Memory T → Result (Memory T)
  ack ranks slots rank seq m =
      let cell = ack_cell ranks (seq % slots) rank in
      elim (get_elem? m.acks cell) [
        | none ↦ err struct_error
        | some old ↦ ok (record m { acks = set m.acks cell seq })
      ]

  -- a round of `wait_slot_acks`: whether the wait is over
  unfoldable pub slot_acked : (ranks slots seq world_size : ℕ) → Memory T → Result Bool
  unfolding all_acked
  slot_acked ranks slots seq world_size m =
      if seq == 0
      then ok true
      else all_acked ranks (seq % slots) seq m.acks (range_from 1 (world_size - 1))

  -- the writes of `submit`, in their order
  unfoldable pub put_input : T → Memory T → Memory T
  put_input t m = record m { input = t }

  unfoldable pub put_ids : T → Memory T → Memory T
  put_ids t m = record m { ids = t }

  unfoldable pub put_weights : T → Memory T → Memory T
  put_weights t m = record m { weights = t }

  unfoldable pub put_fields : ℕ → ℤ → Memory T → Memory T
  put_fields response layer m = record m { response_seq = response; layer_id = layer; stop = 0 }

  unfoldable pub put_request : ℕ → Memory T → Memory T
  put_request seq m = record m { request_seq = seq }

  -- `submit`
  unfoldable pub submit : Job T → Memory T → ℕ × Memory T
  submit job m =
      let seq = m.request_seq + 1 in
      let m1 = put_weights job.weights (put_ids job.ids (put_input job.input m)) in
      (seq, put_request seq (put_fields m.response_seq job.layer m1))

  -- A round of `wait_response`. What it returns is a view of the memory: the slot that is viewed.
  unfoldable pub poll_response : (slots seq : ℕ) → Memory T → Option (Result ℕ)
  poll_response slots seq m =
      if not_zero m.stop
      then some (err runtime_error)
      else if leb seq m.response_seq
      then some (ok (seq % slots))
      else none

  -- a round of `wait_request`; the answer is none where the server is stopped
  unfoldable pub poll_request : (last_seq : ℕ) → Memory T → Option (Option (ℕ × ℤ))
  poll_request last_seq m =
      if not_zero m.stop
      then some none
      else if ltb last_seq m.request_seq
      then some (some (m.request_seq, m.layer_id))
      else none

  -- `respond`: the header read before is written back, the answer last
  unfoldable pub put_layer : ℤ → Memory T → Memory T
  put_layer layer m = record m { layer_id = layer }

  unfoldable pub put_stop : ℕ → Memory T → Memory T
  put_stop stop m = record m { stop = stop }

  unfoldable pub put_response : ℕ → Memory T → Memory T
  put_response seq m = record m { response_seq = seq }

  unfoldable pub respond : ℕ → Memory T → Memory T
  respond seq m =
      put_response seq (put_stop m.stop (put_layer m.layer_id (put_request m.request_seq m)))
