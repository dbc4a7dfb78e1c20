-- ===== src/Mapping/Minimax.antt =====
-- The names of the tensors of MiniMax-M2 GGUF files (loader/mappings/minimax_m2.py).
pub mod Table
use pocket_mo_e.Prelude.{
  ℕ, List, [], ◌∷◌, ◌++◌, map, Option, none, some, Bool, true, false, not, range, if◌then◌else◌,
  list_eq, nat_eq,
}
use pocket_mo_e.Prelude.Dict
use pocket_mo_e.Prelude.Dict.{Dict}
use pocket_mo_e.Prelude.Int.{ℤ, pos_part}
use pocket_mo_e.Prelude.Text.{Text, codes, starts_with}
use pocket_mo_e.Mapping.Glm.{TensorMapping, three_parts, global_mapping, layer_mapping}
use pocket_mo_e.Mapping.Minimax.Table.{TypedRow, minimax_global_tensors, minimax_layer_tensors}

typed_role_or_other : Option TypedRow → Text
typed_role_or_other none = codes "other"
typed_role_or_other (some r) = r.row_of.logical_role

suffix_or_empty : Option (Text × Text) → Text
suffix_or_empty none = []
suffix_or_empty (some (layer, suffix)) = suffix

-- `classify_tensor_name`
unfoldable pub classify_minimax_name : Text → Text
unfolding typed_role_or_other suffix_or_empty
classify_minimax_name name =
    if Dict.has name minimax_global_tensors
    then typed_role_or_other (Dict.get name minimax_global_tensors)
    else if not (starts_with (codes "blk.") name)
    then codes "other"
    else typed_role_or_other (Dict.get (suffix_or_empty (three_parts name)) minimax_layer_tensors)

minimax_layers : List ℕ → List TensorMapping
minimax_layers [] = []
minimax_layers (layer ∷ layers) =
    map (λ x. layer_mapping layer (x.0, x.1.row_of)) minimax_layer_tensors ++ minimax_layers layers

-- `build_tensor_mappings`
unfoldable pub build_minimax_mappings : ℤ → List TensorMapping
unfolding minimax_layers
build_minimax_mappings n_layers =
    map (λ x. global_mapping (x.0, x.1.row_of)) minimax_global_tensors
    ++ minimax_layers (range (pos_part n_layers))
