-- ===== src/Mapping/Glm.antt =====
-- The names of the tensors of GLM-DSA GGUF files (loader/mappings/glm_dsa.py): their roles and the
-- mappings of a model.
pub mod Table
pub mod Laws
use pocket_mo_e.Prelude.{
  ℕ, suc, ◌-◌, List, [], ◌∷◌, ◌++◌, map, Option, none, some, Bool, true, false, ◌&&◌, not, range,
  if◌then◌else◌, list_eq, nat_eq,
}
use pocket_mo_e.Prelude.Dict
use pocket_mo_e.Prelude.Dict.{Dict}
use pocket_mo_e.Prelude.Int.{ℤ, pos, pos_part, ltb_ℤ}
use pocket_mo_e.Prelude.Text.{Text, codes, split, join, starts_with, parse_int, nat_text}
use pocket_mo_e.Mapping.Table.{Transform}
use pocket_mo_e.Mapping.Glm.Table.{
  LogicalRow, glm_global_tensors, dense_layer_tensors, moe_layer_tensors, nextn_tensors,
}

-- `TensorMapping` (components/moe/spec.py)
pub record TensorMapping : Type 0 where
  pub source_name : Text
  pub logical_name : Text
  pub role : Text
  pub transform : Transform
  pub layer : Option ℕ
  pub expert : Option ℕ
  pub required : Bool

-- `layer_tensor_table`
unfoldable pub layer_tensor_table : ℤ → ℤ → Dict Text LogicalRow
layer_tensor_table layer leading_dense_layers =
    if ltb_ℤ layer leading_dense_layers then dense_layer_tensors else moe_layer_tensors

-- `name.split(".", 2)`, where it has three parts
unfoldable pub three_parts : Text → Option (Text × Text)
three_parts name = elim (split b'.' name) [
  | [] ↦ none
  | a ∷ bs ↦ elim bs [
    | [] ↦ none
    | b ∷ cs ↦ elim cs [ [] ↦ none | c ∷ ds ↦ some (b, join b'.' (c ∷ ds)) ]
  ]
]

role_or_other : Option LogicalRow → Text
role_or_other none = codes "other"
role_or_other (some r) = r.logical_role

layer_role : ℤ → Text → Option ℤ → Text
unfolding role_or_other
layer_role leading suffix none = codes "other"
layer_role leading suffix (some layer) =
    if Dict.has suffix nextn_tensors
    then role_or_other (Dict.get suffix nextn_tensors)
    else role_or_other (Dict.get suffix (layer_tensor_table layer leading))

parts_role : ℤ → Option (Text × Text) → Text
unfolding layer_role
parts_role leading none = codes "other"
parts_role leading (some (layer, suffix)) = layer_role leading suffix (parse_int layer)

-- `classify_tensor_name`
unfoldable pub classify_tensor_name : Text → ℤ → Text
unfolding role_or_other parts_role
classify_tensor_name name leading_dense_layers =
    if Dict.has name glm_global_tensors
    then role_or_other (Dict.get name glm_global_tensors)
    else if Dict.has name nextn_tensors
    then role_or_other (Dict.get name nextn_tensors)
    else if not (starts_with (codes "blk.") name)
    then codes "other"
    else parts_role leading_dense_layers (three_parts name)

unfoldable pub global_mapping : Text × LogicalRow → TensorMapping
global_mapping (source, r) = record {
  source_name = source;
  logical_name = r.logical;
  role = r.logical_role;
  transform = r.logical_transform;
  layer = none;
  expert = none;
  required = true;
}

unfoldable pub layer_mapping : ℕ → Text × LogicalRow → TensorMapping
layer_mapping layer (suffix, r) = record {
  source_name = codes "blk." ++ (nat_text layer ++ (codes "." ++ suffix));
  logical_name = codes "layers." ++ (nat_text layer ++ (codes "." ++ r.logical));
  role = r.logical_role;
  transform = r.logical_transform;
  layer = some layer;
  expert = none;
  required = true;
}

layers_mappings : ℤ → List ℕ → List TensorMapping
layers_mappings leading [] = []
layers_mappings leading (layer ∷ layers) =
    map (layer_mapping layer) (layer_tensor_table (pos layer) leading)
    ++ layers_mappings leading layers

nextn_mappings : ℕ → ℤ → List TensorMapping
nextn_mappings n_layers nextn_layers =
    if ltb_ℤ (pos 0) nextn_layers && ltb_ℤ (pos 0) (pos n_layers)
    then map (layer_mapping (n_layers - 1)) nextn_tensors
    else []

-- `build_tensor_mappings`
unfoldable pub build_tensor_mappings : ℤ → ℤ → ℤ → List TensorMapping
unfolding layers_mappings nextn_mappings
build_tensor_mappings n_layers leading_dense_layers nextn_layers =
    map global_mapping glm_global_tensors
    ++ (layers_mappings leading_dense_layers (range (pos_part n_layers))
        ++ nextn_mappings (pos_part n_layers) nextn_layers)
