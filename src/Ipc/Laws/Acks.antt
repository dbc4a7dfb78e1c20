-- ===== src/Ipc/Laws/Acks.antt =====
-- The cells of the acknowledgements, and the slot that is claimed once they are there
-- (components/moe/ipc.py).
use native.Mathlib.Nat.{mul-le-mul_right}
use pocket_mo_e.Prelude.{
  ℕ, zero, suc, ◌+◌, ◌-◌, ◌*◌, ◌%◌, ◌≤◌, ◌<◌, List, ◌∷◌, Option, some, get_elem?, set, replicate,
  get_elem?-set_self, get_elem?-set_ne, true, false, ok, inl, inr, ◌⊎◌, ◌≡◌, ◌≢◌, sym, subst, ◌∙◌,
  range_from, ltb, nat_eq, ◌==◌, Option-cases, ap, eq_of_beq, Bool-cases, arith,
}
use pocket_mo_e.Ipc.{Memory, Job, put, ack_cell, all_acked, slot_acked}
use pocket_mo_e.Ipc.Laws.Slots.{put_same, put_cases, le_or_lt, Kept}

-- the cell of a rank below `ranks` is no other rank's
pub cell_rank :
    (ranks slot rank other_slot other : ℕ)
    → rank < ranks
    → other < ranks
    → ack_cell ranks slot rank ≡ ack_cell ranks other_slot other
    → rank ≡ other
cell_rank ranks slot rank other_slot other lt lt' e = elim (le_or_lt slot other_slot) [
  | inl le ↦ elim (le_or_lt other_slot slot) [
    | inl ge ↦
        let same : slot ≡ other_slot = omega arith in
        let rows : slot * ranks ≡ other_slot * ranks = ap (λ s. s * ranks) same in
        omega (arith, rows, e)
    | inr before ↦
        let rows : suc slot * ranks ≤ other_slot * ranks = mul-le-mul_right ranks before in
        absurd (omega (arith, rows, e))
  ]
  | inr after ↦
      let rows : suc other_slot * ranks ≤ slot * ranks = mul-le-mul_right ranks after in
      absurd (omega (arith, rows, e))
]

pub get_elem?-replicate_zero : (n i a : ℕ) → get_elem? (replicate n 0) i ≡ some a → a ≡ 0
get_elem?-replicate_zero zero i a h = cc
get_elem?-replicate_zero (suc n) zero a h = cc
get_elem?-replicate_zero (suc n) (suc i) a h = get_elem?-replicate_zero n i a h

pub cells_apart : (i j : ℕ) → (i == j) ≡ false → i ≢ j
cells_apart i j f e = absurd (ground (arith, f, e))

all_acked-cons :
    (ranks slot seq : ℕ) (cells : List ℕ) (rank : ℕ) (others : List ℕ)
    → all_acked ranks slot seq cells (rank ∷ others) ≡ ok true
    → ((a : ℕ) × (get_elem? cells (ack_cell ranks slot rank) ≡ some a) × (seq ≤ a))
      × (all_acked ranks slot seq cells others ≡ ok true)
unfolding all_acked
all_acked-cons ranks slot seq cells rank others h =
    elim (Option-cases (get_elem? cells (ack_cell ranks slot rank))) [
      | inl e ↦ absurd (ground (arith, e, h))
      | inr (a, e) ↦ elim (Bool-cases (ltb a seq)) [
        | inl t ↦ absurd (ground (arith, e, t, h))
        | inr f ↦ ((a, e, ground arith), ground (arith, e, f, h))
      ]
    ]

all_acked-le :
    (ranks slot seq : ℕ) (cells : List ℕ) (lo n rank : ℕ)
    → all_acked ranks slot seq cells (range_from lo n) ≡ ok true
    → lo ≤ rank
    → rank < lo + n
    → (a : ℕ) × (get_elem? cells (ack_cell ranks slot rank) ≡ some a) × (seq ≤ a)
all_acked-le ranks slot seq cells lo zero rank h le lt = absurd (omega arith)
all_acked-le ranks slot seq cells lo (suc n) rank h le lt =
    let (found, others) = all_acked-cons ranks slot seq cells lo (range_from (suc lo) n) h in
    elim (le_or_lt rank lo) [
      | inl below ↦
          let same : lo ≡ rank = omega arith in
          subst (λ r. (a : ℕ) × (get_elem? cells (ack_cell ranks slot r) ≡ some a) × (seq ≤ a)) same
            found
      | inr above ↦ all_acked-le ranks slot seq cells (suc lo) n rank others above (omega arith)
    ]

-- the wait for a slot is over: every other rank acknowledged it, or nothing was to wait for
pub slot_acked-le :
    {T : Type 0} (ranks slots seq world_size rank : ℕ) (m : Memory T)
    → slot_acked ranks slots seq world_size m ≡ ok true
    → 1 ≤ rank
    → rank < world_size
    → (seq ≡ 0)
      ⊎ ((a : ℕ) × (get_elem? m.acks (ack_cell ranks (seq % slots) rank) ≡ some a) × (seq ≤ a))
unfolding slot_acked
slot_acked-le ranks slots seq world_size rank m h le lt = elim (Bool-cases (seq == 0)) [
  | inl t ↦ inl (eq_of_beq seq 0 t)
  | inr n ↦ inr (
      all_acked-le ranks (seq % slots) seq m.acks 1 (world_size - 1) rank (rw n at h) le
        (omega arith))
]

module _ {T : Type 0} {run : Job T → T} {ranks slots world_size : ℕ} {outputs : ℕ → T}
    {acks : List ℕ} {jobs : ℕ → Job T} {claimed written answered : ℕ} {seen read acked : ℕ → ℕ}
    {got : ℕ → Option T}
    (kept : Kept run ranks slots world_size outputs acks jobs claimed written answered seen read
      acked got) where
  pub Kept-claim :
      (seq : ℕ)
      → claimed ≤ seq
      → ((rank : ℕ)
          → 1 ≤ rank
          → rank < world_size
          → (seq - slots ≡ 0)
            ⊎ ((a : ℕ) × (get_elem? acks (ack_cell ranks ((seq - slots) % slots) rank) ≡ some a)
                × (seq - slots ≤ a)))
      → Kept run ranks slots world_size outputs acks jobs seq written answered seen read acked got
  Kept-claim seq later ready = record {
    acks_le = kept.acks_le;
    acked_le = kept.acked_le;
    read_le = kept.read_le;
    seen_le = kept.seen_le;
    claimed_le = λ rank le lt. elim (ready rank le lt) [
      | inl none_yet ↦ omega arith
      | inr (a, found, enough) ↦
          omega (arith, enough, kept.acks_le ((seq - slots) % slots) rank a le lt found)
    ];
    outputs_hold = λ k one le near. kept.outputs_hold k one le (omega arith);
    got_hold = kept.got_hold;
  }

  grows : (rank r : ℕ) → acked r ≤ put acked rank (read rank) r
  grows rank r = elim (put_cases acked rank r (read rank)) [
    | inl (same, e) ↦ omega (arith, kept.acked_le r, e, ap read same)
    | inr e ↦ omega (arith, e)
  ]

  -- a rank acknowledges what it read
  pub Kept-ack :
      (rank slot old : ℕ)
      → world_size ≤ ranks
      → rank < world_size
      → get_elem? acks (ack_cell ranks slot rank) ≡ some old
      → Kept run ranks slots world_size outputs
          (set acks (ack_cell ranks slot rank) (read rank))
          jobs
          claimed
          written
          answered
          seen
          read
          (put acked rank (read rank))
          got
  Kept-ack rank slot old enough lt there = record {
    acks_le = λ s r a one in_world found.
        elim (Bool-cases (ack_cell ranks s r == ack_cell ranks slot rank)) [
          | inl t ↦
              let e : ack_cell ranks s r ≡ ack_cell ranks slot rank = eq_of_beq _ _ t in
              let same : r ≡ rank = cell_rank ranks s r slot rank (omega arith) (omega arith) e in
              let new : get_elem? (set acks (ack_cell ranks slot rank) (read rank))
                    (ack_cell ranks s r)
                  ≡ some (read rank) =
                ap (get_elem? (set acks (ack_cell ranks slot rank) (read rank))) e
                ∙ get_elem?-set_self acks (ack_cell ranks slot rank) (read rank) there in
              let value : a ≡ read rank = cc in
              subst (λ k. a ≤ put acked rank (read rank) k) (sym same)
                (omega (arith, value, put_same acked rank (read rank)))
          | inr f ↦
              let before : get_elem? acks (ack_cell ranks s r) ≡ some a =
                sym (
                  get_elem?-set_ne acks (ack_cell ranks slot rank) (ack_cell ranks s r) (read rank)
                    (cells_apart _ _ f))
                ∙ found in
              omega (arith, kept.acks_le s r a one in_world before, grows rank r)
        ];
    acked_le = λ r. elim (put_cases acked rank r (read rank)) [
      | inl (same, e) ↦ omega (arith, e, ap read same)
      | inr e ↦ omega (arith, kept.acked_le r, e)
    ];
    read_le = kept.read_le;
    seen_le = kept.seen_le;
    claimed_le = λ r one in_world. omega (arith, kept.claimed_le r one in_world, grows rank r);
    outputs_hold = kept.outputs_hold;
    got_hold = kept.got_hold;
  }
