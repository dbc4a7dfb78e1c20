-- ===== src/Mapping.antt =====
-- The tensors of a GGUF file against the keys of the model's state (loader/mappings/deepseek_v4.py).
-- The text of a shape error is the mapping with its two shapes.
pub mod Table
pub mod Validation
pub mod Laws
pub mod Glm
pub mod Minimax
use pocket_mo_e.Prelude.{
  ℕ, zero, suc, ◌+◌, ◌-◌, List, [], ◌∷◌, ◌++◌, map, Option, none, some, Bool, true, false, not,
  ◌&&◌, ◌||◌, Result, ok, err, length, take, any, keep, range, if◌then◌else◌, ltb, ◌==◌, list_eq,
  nat_eq,
}
use pocket_mo_e.Prelude.Dict
use pocket_mo_e.Prelude.Dict.{Dict}
use pocket_mo_e.Prelude.Int.{ℤ, pos, negsuc, pos_part, ltb_ℤ}
use pocket_mo_e.Prelude.Text.{Text, codes, one_of, starts_with, ends_with, nat_text}
use pocket_mo_e.Gguf.Reader.{MetaValue, Platform, int_of}
use pocket_mo_e.Mapping.Table.{
  Transform, direct, transpose, routed_expert_transpose, generated_scale, Row, row, global_rows,
  attention_rows, hash_gate_rows, bias_gate_rows, tail_rows, compressor_rows, indexer_rows,
}

-- `DS4TensorMapping`
pub record Ds4TensorMapping : Type 0 where
  pub gguf_name : Text
  pub target_key : Text
  pub transform : Transform
  pub expert : Option ℕ
  pub role : Text

-- What the mapping reads of a file: the dimensions of its tensors by name, and its metadata.
pub record Ds4File : Type 0 where
  pub tensors_by_name : Dict Text (List ℕ)
  pub metadata : Dict Text MetaValue

int_result : ℤ → Result ℤ → ℤ
int_result default (ok n) = n
int_result default (err e) = default

int_value : Platform → ℤ → Option MetaValue → ℤ
unfolding int_result
int_value p default none = default
int_value p default (some v) = int_result default (int_of p v)

-- `_metadata_int`
unfoldable pub metadata_int : Platform → Dict Text MetaValue → Text → ℤ → ℤ
unfolding int_value
metadata_int p metadata key default = int_value p default (Dict.get key metadata)

-- `_has_state_key`
unfoldable pub has_state_key : Option (List Text) → Text → Bool
has_state_key none key = true
has_state_key (some keys) key = one_of key keys

unfoldable pub mapped : Text → Text → Option ℕ → Row → Ds4TensorMapping
mapped source_prefix target_prefix expert r = record {
  gguf_name = source_prefix ++ r.source;
  target_key = target_prefix ++ r.target;
  transform = r.row_transform;
  expert = expert;
  role = r.row_role;
}

gguf_prefix : ℕ → Text
gguf_prefix layer = codes "blk." ++ (nat_text layer ++ codes ".")

state_prefix : ℕ → Text
state_prefix layer = codes "layers." ++ (nat_text layer ++ codes ".")

-- the three tensors of a routed expert
expert_rows : List Row
expert_rows =
    row "ffn_gate_exps.weight" "w1.weight" routed_expert_transpose "routed_w1"
    ∷ row "ffn_down_exps.weight" "w2.weight" routed_expert_transpose "routed_w2"
    ∷ row "ffn_up_exps.weight" "w3.weight" routed_expert_transpose "routed_w3"
    ∷ []

expert_mappings : ℕ → List ℕ → List Ds4TensorMapping
unfolding expert_rows gguf_prefix state_prefix
expert_mappings layer [] = []
expert_mappings layer (expert ∷ experts) =
    map
      (mapped (gguf_prefix layer)
        (state_prefix layer ++ (codes "ffn.experts." ++ (nat_text expert ++ codes ".")))
        (some expert))
      expert_rows
    ++ expert_mappings layer experts

-- The rows of a part that is there when the file or the state has its first tensor.
optional_rows : Ds4File → Option (List Text) → ℕ → List Row → List Row
unfolding gguf_prefix state_prefix
optional_rows ds4 state_keys layer [] = []
optional_rows ds4 state_keys layer (r ∷ rs) =
    if Dict.has (gguf_prefix layer ++ r.source) ds4.tensors_by_name
      || has_state_key state_keys (state_prefix layer ++ r.target)
    then r ∷ rs
    else []

-- a turn of the loop over the layers
unfoldable pub layer_mappings : Ds4File → Option (List Text) → ℤ → ℤ → ℕ → List Ds4TensorMapping
unfolding expert_mappings optional_rows gguf_prefix state_prefix
layer_mappings ds4 state_keys n_hash_layers n_experts layer =
    let layer_rows = map (mapped (gguf_prefix layer) (state_prefix layer) none) in
    layer_rows attention_rows
    ++ (layer_rows (if ltb_ℤ (pos layer) n_hash_layers then hash_gate_rows else bias_gate_rows)
        ++ (expert_mappings layer (range (pos_part n_experts))
            ++ (layer_rows tail_rows
                ++ (layer_rows (optional_rows ds4 state_keys layer compressor_rows)
                    ++ layer_rows (optional_rows ds4 state_keys layer indexer_rows)))))

all_layers : Ds4File → Option (List Text) → ℤ → ℤ → List ℕ → List Ds4TensorMapping
all_layers ds4 state_keys n_hash_layers n_experts [] = []
all_layers ds4 state_keys n_hash_layers n_experts (layer ∷ layers) =
    layer_mappings ds4 state_keys n_hash_layers n_experts layer
    ++ all_layers ds4 state_keys n_hash_layers n_experts layers

-- `f"{target_key[:-7]}.scale"`
unfoldable pub scale_key : Text → Text
scale_key key = take (length key - 7) key ++ codes ".scale"

-- the mapping generated for the scale of a weight
scale_mapping : Ds4TensorMapping → Ds4TensorMapping
scale_mapping m = record m { target_key = scale_key m.target_key; transform = generated_scale }

wants_scale : List Text → List Text → Ds4TensorMapping → Bool
wants_scale keys existing m =
    ends_with (codes ".weight") m.target_key
    && (one_of (scale_key m.target_key) keys && not (one_of (scale_key m.target_key) existing))

-- the loop over the mappings that generates those of the scales
unfoldable pub generated : List Text → List Text → List Ds4TensorMapping → List Ds4TensorMapping
unfolding scale_mapping wants_scale
generated keys existing [] = []
generated keys existing (m ∷ ms) =
    if wants_scale keys existing m
    then scale_mapping m ∷ generated keys (scale_key m.target_key ∷ existing) ms
    else generated keys existing ms

with_scales : Option (List Text) → List Ds4TensorMapping → List Ds4TensorMapping
with_scales none ms = ms
with_scales (some keys) ms = ms ++ generated keys (map (λ m. m.target_key) ms) ms

-- the calls of `add` and `add_weight`, in order
unfoldable pub candidates : Platform → Ds4File → Option (List Text) → List Ds4TensorMapping
unfolding all_layers
candidates p ds4 state_keys =
    let n_layers = metadata_int p ds4.metadata (codes "deepseek4.block_count") (pos 43) in
    let n_hash_layers = metadata_int p ds4.metadata (codes "deepseek4.hash_layer_count") (pos 3) in
    let n_experts = metadata_int p ds4.metadata (codes "deepseek4.expert_count") (pos 256) in
    map (mapped [] [] none) global_rows
    ++ all_layers ds4 state_keys n_hash_layers n_experts (range (pos_part n_layers))

-- `build_ds4_tensor_mappings`: `add` leaves out what is no key of the state
unfoldable pub build_ds4_tensor_mappings :
    Platform → Ds4File → Option (List Text) → List Ds4TensorMapping
unfolding with_scales
build_ds4_tensor_mappings p ds4 state_keys =
    with_scales state_keys
      (keep (λ m. has_state_key state_keys m.target_key) (candidates p ds4 state_keys))

swapped : List ℕ → List ℕ
swapped (a ∷ b ∷ rest) = b ∷ a ∷ []
swapped shape = shape

-- `_mapped_shape`
unfoldable pub mapped_shape : Ds4TensorMapping → List ℕ → Option (List ℕ)
unfolding swapped
mapped_shape m shape = elim m.transform [
  | direct ↦ some shape
  | transpose ↦ some (if length shape == 2 then swapped shape else shape)
  | routed_expert_transpose ↦ some (if length shape == 3 then swapped shape else shape)
  | generated_scale ↦ none
]
