-- ===== src/Partition/Laws/Owners.antt =====
-- The layers of the stages tile the model, and each layer has one owner.
use native.Mathlib.Nat.{
  zero-mul, zero-div, mul-div_cancel_left, le-div_iff_mul-le, div-mul-le_self, le_trans,
  mul-le-mul_right,
}
use pocket_mo_e.Prelude.{
  ℕ, zero, suc, ◌+◌, ◌*◌, ◌≤◌, ◌<◌, ◌≡◌, refl, ok, err, value_error, range_from, arith, ltb, ltb→lt,
  Bool-cases, inl, inr,
}
use pocket_mo_e.Partition.Layers.{layer_start, layer_range_for_rank, owner_among, layer_owner_rank}

layer_start-zero : (n pp : ℕ) → layer_start n pp 0 ≡ 0
unfolding layer_start
layer_start-zero n pp = rw (zero-mul n) (zero-div pp)

layer_start-last : (n pp : ℕ) → 0 < pp → layer_start n pp pp ≡ n
unfolding layer_start
layer_start-last n pp h = mul-div_cancel_left n h

layer_start_mono : (n pp r s : ℕ) → 0 < pp → r ≤ s → layer_start n pp r ≤ layer_start n pp s
unfolding layer_start
layer_start_mono n pp r s p h =
    (le-div_iff_mul-le p).1 (le_trans (div-mul-le_self (r * n) pp) (mul-le-mul_right n h))

-- The rank's stage has the layer.
abbrev pub Owns : ℕ → ℕ → ℕ → ℕ → Type 0
Owns n pp r l = (layer_start n pp r ≤ l) × (l < layer_start n pp (r + 1))

owner_among-range :
    (l n pp lo k : ℕ)
    → layer_start n pp lo ≤ l
    → l < layer_start n pp (lo + k)
    → (r : ℕ) × (owner_among l n pp (range_from lo k) ≡ ok r) × (r < lo + k) × Owns n pp r l
unfolding owner_among layer_range_for_rank
owner_among-range l n pp lo zero h h' =
    let e : lo + 0 ≡ lo = omega arith in absurd (let h2 = rw e at h' in omega arith)
owner_among-range l n pp lo (suc k) h h' = elim (Bool-cases (ltb l (layer_start n pp (lo + 1)))) [
  | inl here ↦ (lo, ground arith, omega arith, (h, ltb→lt _ _ here))
  | inr later ↦
      let e : lo + suc k ≡ suc lo + k = omega arith in
      let e1 : lo + 1 ≡ suc lo = omega arith in
      let above : layer_start n pp (lo + 1) ≤ l = ground arith in
      let (r, found, below, owns) =
        owner_among-range l n pp (suc lo) k (rw e1 at above) (rw e at h') in
      (r, ground (arith, found), omega arith, owns)
]

Owns-unique : (l n pp r s : ℕ) → 0 < pp → Owns n pp r l → Owns n pp s l → r ≡ s
Owns-unique l n pp r s p h k = grind (
  arith,
  λ (e : r + 1 ≤ s). layer_start_mono n pp (r + 1) s p e,
  λ (e : s + 1 ≤ r). layer_start_mono n pp (s + 1) r p e,
)

-- With at least one stage, every layer of the model has an owner: a stage that exists and has the
-- layer in its range.
pub layer_owner_rank-total :
    (l n pp : ℕ)
    → 0 < pp
    → l < n
    → (r : ℕ) × (layer_owner_rank l n pp ≡ ok r) × (r < pp) × Owns n pp r l
unfolding layer_owner_rank
layer_owner_rank-total l n pp p h =
    let e : 0 + pp ≡ pp = omega arith in
    let (r, found, below, owns) =
      owner_among-range l n pp 0 pp (rw (layer_start-zero n pp) (omega arith))
        (rw (e, layer_start-last n pp p) h) in
    (r, found, omega arith, owns)

-- With at least one stage, `layer_owner_rank` answers the stage that has a layer of the model in
-- its range: there is only one.
pub layer_owner_rank_unique :
    (l n pp r : ℕ) → 0 < pp → l < n → Owns n pp r l → layer_owner_rank l n pp ≡ ok r
layer_owner_rank_unique l n pp r p h owns =
    let (s, found, below, owns') = layer_owner_rank-total l n pp p h in
    rw (Owns-unique l n pp r s p owns owns') found

owner_among-none :
    (l n pp lo k : ℕ)
    → 0 < pp
    → lo + k ≤ pp
    → n ≤ l
    → owner_among l n pp (range_from lo k) ≡ err value_error
unfolding owner_among layer_range_for_rank
owner_among-none l n pp lo zero p b h = refl
owner_among-none l n pp lo (suc k) p b h =
    let top = layer_start_mono n pp (lo + 1) pp p (omega arith) in
    ground (arith, top, layer_start-last n pp p, owner_among-none l n pp (suc lo) k)

-- A layer past the last has no owner: `layer_owner_rank` ends with a ValueError.
pub layer_owner_rank-past_end : (l n pp : ℕ) → n ≤ l → layer_owner_rank l n pp ≡ err value_error
unfolding layer_owner_rank
layer_owner_rank-past_end l n zero h = unfold owner_among in refl
layer_owner_rank-past_end l n (suc pp) h =
    owner_among-none l n (suc pp) 0 (suc pp) (omega arith) (omega arith) h
