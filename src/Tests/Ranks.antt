-- ===== src/Tests/Ranks.antt =====
-- The theorems on the partition rules and on the mappings at concrete inputs.
use pocket_mo_e.Prelude.{
  ℕ, ◌<◌, ◌≡◌, refl, [], ◌∷◌, some, true, false, ok, err, value_error, arith, nat_eqb, nat_eq, ◌==◌,
  All,
}
use pocket_mo_e.Prelude.Int.{pos}
use pocket_mo_e.Prelude.Text.{
  Text, codes, one_of, starts_with, ends_with, split, parse_int, strip, all_digits, is_digit,
}
use pocket_mo_e.Gguf.Reader.{Platform}
use pocket_mo_e.Partition.{policy_layer_pp_4gpu}
use pocket_mo_e.Partition.Rules.{even_shard}
use pocket_mo_e.Partition.Layers.{
  layer_start, layer_range_for_rank, owner_among, layer_owner_rank, layer_number, owner_of_layer,
  parameter_owner_rank,
}
use pocket_mo_e.Partition.Keys.{checkpoint_key_is_needed_for_policy, is_folded_scale}
use pocket_mo_e.Partition.Laws.Owners.{
  Owns, layer_owner_rank-total, layer_owner_rank_unique, layer_owner_rank-past_end,
}
use pocket_mo_e.Partition.Laws.Shards.{has_index, even_shard-tiles}
use pocket_mo_e.Partition.Laws.Stages.{owned_key-one_rank}
use pocket_mo_e.Mapping.{Ds4File, build_ds4_tensor_mappings}
use pocket_mo_e.Mapping.Validation.{validate_ds4_tensor_mappings}
use pocket_mo_e.Mapping.Laws.{
  IsInto, build_ds4_tensor_mappings-IsInto, validate_ds4_tensor_mappings-no_missing_targets,
}

layer_owner_rank-total_example :
    (r : ℕ) × (layer_owner_rank 12 43 4 ≡ ok r) × (r < 4) × Owns 43 4 r 12
layer_owner_rank-total_example = layer_owner_rank-total 12 43 4 (omega arith) (omega arith)

stage_of_12 : Owns 43 4 1 12
unfolding layer_start
stage_of_12 = (omega arith, omega arith)

layer_owner_rank_unique_example : layer_owner_rank 12 43 4 ≡ ok 1
layer_owner_rank_unique_example =
    layer_owner_rank_unique 12 43 4 1 (omega arith) (omega arith) stage_of_12

layer_owner_rank-past_end_example : layer_owner_rank 43 43 4 ≡ err value_error
layer_owner_rank-past_end_example = layer_owner_rank-past_end 43 43 4 (omega arith)

even_shard-tiles_example :
    (r : ℕ) × (r < 4) × ((r' : ℕ) → has_index (even_shard 0 (some 8) 4 r') 5 ≡ nat_eqb r' r)
even_shard-tiles_example = even_shard-tiles 0 8 4 5 (omega arith) refl (omega arith)

abbrev norm_key : Text
norm_key = codes "layers.12.attn_norm.weight"

norm_unfolded : is_folded_scale norm_key (norm_key ∷ []) ≡ false
unfolding is_folded_scale ends_with starts_with
norm_unfolded = refl

norm_known : one_of norm_key (norm_key ∷ []) ≡ true
unfolding one_of
norm_known = refl

norm_owner : parameter_owner_rank norm_key 43 4 ≡ ok (some (pos 1))
unfolding parameter_owner_rank owner_of_layer layer_number layer_owner_rank owner_among
    layer_range_for_rank layer_start starts_with split parse_int strip all_digits is_digit one_of
norm_owner = refl

owned_key-one_rank_example :
    (r : ℕ) × (r < 4)
    × ((rank : ℕ)
        → checkpoint_key_is_needed_for_policy norm_key
            (norm_key ∷ [])
            []
            policy_layer_pp_4gpu
            4
            rank
            (some 43)
          ≡ ok (r == rank))
owned_key-one_rank_example =
    owned_key-one_rank norm_key (norm_key ∷ []) [] 4 43 {owner = pos 1} (omega arith) norm_unfolded
      norm_known norm_owner

abbrev small_file : Ds4File
small_file = record {
  tensors_by_name = (codes "output_norm.weight", 4096 ∷ []) ∷ [];
  metadata = [];
}

abbrev plain : Platform
plain = record { decode = λ b. b; truncate = λ w n. err value_error }

build_ds4_tensor_mappings-IsInto_example :
    All
      (IsInto (codes "norm.weight" ∷ []))
      (build_ds4_tensor_mappings plain small_file (some (codes "norm.weight" ∷ [])))
build_ds4_tensor_mappings-IsInto_example =
    build_ds4_tensor_mappings-IsInto plain small_file (codes "norm.weight" ∷ [])

no_missing_targets_example :
    (validate_ds4_tensor_mappings plain small_file
      ((codes "norm.weight", 4096 ∷ []) ∷ [])
      (codes "mtp." ∷ [])).missing_targets
    ≡ []
no_missing_targets_example =
    validate_ds4_tensor_mappings-no_missing_targets plain small_file
      ((codes "norm.weight", 4096 ∷ []) ∷ []) (codes "mtp." ∷ [])
