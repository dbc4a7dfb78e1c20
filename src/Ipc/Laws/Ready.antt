-- ===== src/Ipc/Laws/Ready.antt =====
-- When a process can take its step (components/moe/ipc.py).
use native.Mathlib.Nat.{mod-lt, mul-le-mul_right}
use pocket_mo_e.Prelude.{
  ℕ, zero, suc, ◌+◌, ◌-◌, ◌*◌, ◌%◌, ◌≤◌, ◌<◌, List, [], ◌∷◌, some, get_elem?, length, set, set,
  true, ok, inl, inr, ◌⊎◌, ◌≡◌, refl, range_from, ltb, nat_eq, ◌==◌, Bool-cases, arith,
}
use pocket_mo_e.Ipc.{Memory, ack, ack_cell, all_acked, slot_acked, poll_response, poll_request}
use pocket_mo_e.Ipc.Laws.Slots.{le_or_lt}

pub get_elem?-below : (xs : List ℕ) (i : ℕ) → i < length xs → (a : ℕ) × (get_elem? xs i ≡ some a)
get_elem?-below [] i lt = absurd (omega arith)
get_elem?-below (x ∷ xs) zero lt = (x, refl)
get_elem?-below (x ∷ xs) (suc i) lt = get_elem?-below xs i (omega arith)

pub cell_below :
    (ranks slots slot rank : ℕ)
    → slot < slots
    → rank < ranks
    → ack_cell ranks slot rank < slots * ranks
cell_below ranks slots slot rank lt in_row =
    let rows : suc slot * ranks ≤ slots * ranks = mul-le-mul_right ranks lt in omega (arith, rows)

-- Either all acknowledged, or a rank has an older number in its cell.
all_acked-cases :
    (ranks slot seq : ℕ) (cells : List ℕ) (lo n world_size : ℕ)
    → 1 ≤ lo
    → lo + n ≤ world_size
    → ((rank : ℕ)
        → rank < world_size
        → (a : ℕ) × (get_elem? cells (ack_cell ranks slot rank) ≡ some a))
    → (all_acked ranks slot seq cells (range_from lo n) ≡ ok true)
      ⊎ ((rank : ℕ) × (a : ℕ) × (1 ≤ rank)
          × (rank < world_size)
          × (get_elem? cells (ack_cell ranks slot rank) ≡ some a)
          × (a < seq))
unfolding all_acked
all_acked-cases ranks slot seq cells lo zero world_size one le there = inl refl
all_acked-cases ranks slot seq cells lo (suc n) world_size one le there =
    let (a, e) = there lo (omega arith) in
    elim (Bool-cases (ltb a seq)) [
      | inl t ↦ inr (lo, a, one, omega arith, e, ground arith)
      | inr f ↦
          elim (all_acked-cases ranks slot seq cells (suc lo) n world_size (omega arith)
            (omega arith) there) [
              | inl rest ↦ inl (ground (arith, e, f, rest))
              | inr late ↦ inr late
            ]
    ]

pub slot_acked-cases :
    {T : Type 0} (ranks slots seq world_size : ℕ) (m : Memory T)
    → 0 < slots
    → world_size ≤ ranks
    → length m.acks ≡ slots * ranks
    → (slot_acked ranks slots seq world_size m ≡ ok true)
      ⊎ ((rank : ℕ) × (a : ℕ) × (1 ≤ rank)
          × (rank < world_size)
          × (get_elem? m.acks (ack_cell ranks (seq % slots) rank) ≡ some a)
          × (a < seq))
unfolding slot_acked
slot_acked-cases ranks slots seq world_size m some_slot in_row whole =
    elim (Bool-cases (seq == 0)) [
      | inl t ↦ inl (rw t refl)
      | inr f ↦ elim (le_or_lt world_size 1) [
        | inl alone ↦
            let none_other : world_size - 1 ≡ 0 = omega arith in inl (rw (f, none_other) refl)
        | inr others ↦
            elim (all_acked-cases ranks (seq % slots) seq m.acks 1 (world_size - 1) world_size
              (omega arith) (omega arith)
              (λ rank lt. get_elem?-below m.acks (ack_cell ranks (seq % slots) rank) (
                omega (
                  arith,
                  whole,
                  cell_below ranks slots (seq % slots) rank (mod-lt seq some_slot) (omega arith),
                )))) [ inl all_there ↦ inl (rw (f, all_there) refl) | inr late ↦ inr late ]
      ]
    ]

pub ack-there :
    {T : Type 0} (ranks slots rank seq old : ℕ) (m : Memory T)
    → get_elem? m.acks (ack_cell ranks (seq % slots) rank) ≡ some old
    → (u : Memory T) × (ack ranks slots rank seq m ≡ ok u)
unfolding ack
ack-there ranks slots rank seq old m e =
    (record m { acks = set m.acks (ack_cell ranks (seq % slots) rank) seq }, rw (e, ack) refl)

pub poll_response-there :
    {T : Type 0} (slots seq : ℕ) (m : Memory T)
    → m.stop ≡ 0
    → seq ≤ m.response_seq
    → poll_response slots seq m ≡ some (ok (seq % slots))
unfolding poll_response
poll_response-there slots seq m runs le = ground arith

pub poll_request-there :
    {T : Type 0} (last : ℕ) (m : Memory T)
    → m.stop ≡ 0
    → last < m.request_seq
    → poll_request last m ≡ some (some (m.request_seq, m.layer_id))
unfolding poll_request
poll_request-there last m runs lt = ground arith
