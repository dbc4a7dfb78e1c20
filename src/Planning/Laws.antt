-- ===== src/Planning/Laws.antt =====
-- An even placement is large enough, and no larger than it must be.
use native.Mathlib.Nat.{div-add-mod, mod-lt}
use pocket_mo_e.Prelude.{
  ℕ, suc, ◌+◌, ◌*◌, ◌/◌, ◌%◌, ◌<◌, ◌≤◌, ◌≡◌, refl, ap, sym, ◌∙◌, arith, some, true,
}
use pocket_mo_e.Prelude.Int.{pos, ◌+ℤ◌, floor_div_pos, leb_ℤ}
use pocket_mo_e.Planning.{estimate_even_shard, lowbit_device_resident_decision}

pos_sum : (a b : ℕ) → pos a +ℤ pos b ≡ pos (a + b)
unfolding ◌+ℤ◌
pos_sum a b = ground arith

even_shard-pos : (t k : ℕ) → estimate_even_shard (pos t) (pos (suc k)) ≡ pos ((t + k) / suc k)
unfolding estimate_even_shard floor_div_pos
even_shard-pos t k = rw (pos_sum t k) refl

le_of_leb_ℤ : (a b : ℕ) → leb_ℤ (pos a) (pos b) ≡ true → a ≤ b
le_of_leb_ℤ a b h = ground arith

-- On one GPU or more, when the bytes usable on each are enough by `lowbit_device_resident_decision`,
-- the estimate for each GPU fits there, all of them together hold the total, and one byte less on
-- each would not.
pub lowbit_device_resident_decision-fits :
    (t k usable : ℕ)
    → (lowbit_device_resident_decision (pos t) (pos (suc k)) (pos usable)).candidate ≡ true
    → (s : ℕ) × ((lowbit_device_resident_decision
          (pos t)
          (pos (suc k))
          (pos usable)).estimated_bytes_per_gpu
        ≡ some (pos s))
      × (s ≤ usable)
      × (t ≤ suc k * s)
      × (suc k * s < t + suc k)
unfolding lowbit_device_resident_decision
lowbit_device_resident_decision-fits t k usable h =
    let s = (t + k) / suc k in
    let e = even_shard-pos t k in
    let parts : suc k * ((t + k) / suc k) + (t + k) % suc k ≡ t + k = div-add-mod (t + k) (suc k) in
    let small : (t + k) % suc k < suc k = mod-lt (t + k) {m = suc k} (omega arith) in
    (
      s,
      ap some e,
      ground (arith, le_of_leb_ℤ s usable (ap (λ v. leb_ℤ v (pos usable)) (sym e) ∙ h)),
      omega (arith, parts, small),
      omega (arith, parts, small),
    )
