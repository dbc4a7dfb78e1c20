-- ===== src/Mapping/Glm/Laws.antt =====
-- The layers that the mappings of a GLM-DSA model name.
use pocket_mo_e.Prelude.{
  ℕ, zero, suc, ◌+◌, ◌-◌, ◌<◌, ◌≤◌, ◌≡◌, List, [], ◌∷◌, map, some, ◌&&◌, range, range_from, All,
  arith, Bool-cases, inl, inr,
}
use pocket_mo_e.Prelude.Int.{ℤ, pos, pos_part, ltb_ℤ}
use pocket_mo_e.Mapping.Laws.{All-append}
use pocket_mo_e.Mapping.Glm.{
  TensorMapping, layer_tensor_table, global_mapping, layer_mapping, layers_mappings, nextn_mappings,
  build_tensor_mappings,
}
use pocket_mo_e.Mapping.Glm.Table.{LogicalRow, glm_global_tensors, nextn_tensors}

-- The mapping is of no layer, or of one of the first so many.
abbrev pub IsBelow : ℕ → TensorMapping → Type 0
IsBelow n m = (l : ℕ) → m.layer ≡ some l → l < n

layer_mapping-IsBelow :
    (n l : ℕ) (rows : List (_ × LogicalRow)) → l < n → All (IsBelow n) (map (layer_mapping l) rows)
unfolding layer_mapping
layer_mapping-IsBelow n l [] h = tt
layer_mapping-IsBelow n l (r ∷ rows) h = (λ k e. ground arith, layer_mapping-IsBelow n l rows h)

global_mapping-IsBelow :
    (n : ℕ) (rows : List (_ × LogicalRow)) → All (IsBelow n) (map global_mapping rows)
unfolding global_mapping
global_mapping-IsBelow n [] = tt
global_mapping-IsBelow n (r ∷ rows) = (λ k e. absurd (cc), global_mapping-IsBelow n rows)

layers_mappings-IsBelow :
    (n : ℕ) (leading : ℤ) (lo k : ℕ)
    → lo + k ≤ n
    → All (IsBelow n) (layers_mappings leading (range_from lo k))
unfolding layers_mappings
layers_mappings-IsBelow n leading lo zero h = tt
layers_mappings-IsBelow n leading lo (suc k) h =
    All-append (IsBelow n) _ _
      (layer_mapping-IsBelow n lo (layer_tensor_table (pos lo) leading) (omega (arith, h)))
      (layers_mappings-IsBelow n leading (suc lo) k (omega (arith, h)))

nextn_mappings-IsBelow : (n : ℕ) (nextn : ℤ) → All (IsBelow n) (nextn_mappings n nextn)
unfolding nextn_mappings
nextn_mappings-IsBelow n nextn = elim (Bool-cases (ltb_ℤ (pos 0) nextn && ltb_ℤ (pos 0) (pos n))) [
  | inl t ↦ rw t (layer_mapping-IsBelow n (n - 1) nextn_tensors (ground arith))
  | inr f ↦ rw f tt
]

-- Every mapping that `build_tensor_mappings` makes for a GLM-DSA model, those of the next-token
-- layer included, is of no layer or of one below the number of layers, which may be negative.
pub build_tensor_mappings-IsBelow :
    (n_layers leading nextn : ℤ)
    → All (IsBelow (pos_part n_layers)) (build_tensor_mappings n_layers leading nextn)
unfolding build_tensor_mappings
build_tensor_mappings-IsBelow n_layers leading nextn =
    let n = pos_part n_layers in
    All-append (IsBelow n) (map global_mapping glm_global_tensors) _
      (global_mapping-IsBelow n glm_global_tensors)
      (All-append (IsBelow n) (layers_mappings leading (range n)) _
        (layers_mappings-IsBelow n leading 0 n (omega arith)) (nextn_mappings-IsBelow n nextn))
