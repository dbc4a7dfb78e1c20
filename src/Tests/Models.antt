-- ===== src/Tests/Models.antt =====
-- The theorems on plans, names and tokens at concrete inputs.
use pocket_mo_e.Prelude.{
  ℕ, map, sum, Option, none, ◌+◌, ◌-◌, ◌*◌, ◌<◌, ◌≤◌, ◌≡◌, refl, List, [], ◌∷◌, some, true, ok, All,
}
use pocket_mo_e.Prelude.Int.{pos, floor_div_pos, ◌+ℤ◌}
use pocket_mo_e.Planning.{lowbit_device_resident_decision, estimate_even_shard}
use pocket_mo_e.Planning.Counts.{bytes_by, or_zero}
use pocket_mo_e.Planning.Counts.Laws.{total, total-bytes_by}
use pocket_mo_e.Prelude.Text.{Text, codes}
use pocket_mo_e.Planning.Laws.{lowbit_device_resident_decision-fits}
use pocket_mo_e.Tokens.{greedy_generate_token_ids}
use pocket_mo_e.Tokens.Laws.{Stops, greedy_generate_token_ids-Stops}
use pocket_mo_e.Mapping.Glm.{build_tensor_mappings}
use pocket_mo_e.Mapping.Glm.Laws.{IsBelow, build_tensor_mappings-IsBelow}

ten_fit : (lowbit_device_resident_decision (pos 10) (pos 4) (pos 3)).candidate ≡ true
unfolding lowbit_device_resident_decision estimate_even_shard floor_div_pos ◌+ℤ◌
ten_fit = refl

lowbit_device_resident_decision-fits_example :
    (s : ℕ) × ((lowbit_device_resident_decision (pos 10) (pos 4) (pos 3)).estimated_bytes_per_gpu
      ≡ some (pos s))
    × (s ≤ 3)
    × (10 ≤ 4 * s)
    × (4 * s < 10 + 4)
lowbit_device_resident_decision-fits_example = lowbit_device_resident_decision-fits 10 3 3 ten_fit

-- a model that counts down
abbrev countdown : ℕ → List ℕ → ℕ → ℕ × ℕ
countdown m input at = (m, m - 1)

greedy_generate_token_ids-Stops_example :
    (first : ℕ) × (others : List ℕ) × (after : ℕ) × (greedy_generate_token_ids countdown
        (λ n m. 2)
        (some 0)
        (7 ∷ [])
        (pos 8)
        2
      ≡ ok (first ∷ others, after))
    × Stops 7 (some 0) first others
greedy_generate_token_ids-Stops_example =
    greedy_generate_token_ids-Stops countdown (λ n m. 2) (some 0) 7 [] 7 2

build_tensor_mappings-IsBelow_example :
    All (IsBelow 4) (build_tensor_mappings (pos 4) (pos 3) (pos 1))
build_tensor_mappings-IsBelow_example = build_tensor_mappings-IsBelow (pos 4) (pos 3) (pos 1)

abbrev two_tensors : List (Text × Option ℕ)
two_tensors = (codes "f32", some 16) ∷ (codes "f32", none) ∷ []

total-bytes_by_example :
    total (bytes_by (λ x. x.0) (λ x. x.1) two_tensors) ≡ sum (map (λ x. or_zero x.1) two_tensors)
total-bytes_by_example = total-bytes_by (λ x. x.0) (λ x. x.1) two_tensors
