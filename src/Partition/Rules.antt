-- ===== src/Partition/Rules.antt =====
-- Which part of a tensor a rank holds: `partition_rule_kind`, `shard_shape_for_rank`,
-- `shard_tensor_for_rank` and `shard_q8_0_blocks_for_rank` (models/deepseek_v4/partition.py).
-- A tensor is torch's: its sizes and `narrow` are parameters.
use pocket_mo_e.Prelude.{
  ℕ, ◌+◌, ◌*◌, ◌/◌, ◌%◌, List, Option, none, some, Bool, true, false, not, ◌&&◌, ◌||◌, Result, ok,
  err, ◌>>=◌, value_error, index_error, assertion_error, zero_division, length, get_elem?, list_eq,
  nat_eq, ◌==◌, if◌then◌else◌,
}
use mathlib.Core.Option
use pocket_mo_e.Prelude.Int.{ℤ, pos, ◌+ℤ◌, ltb_ℤ, leb_ℤ}
use pocket_mo_e.Prelude.Text.{Text, codes, split, contains, ends_with, parse_int, index_of}

-- The classes that the rules tell apart.
pub data ModuleClass : Type 0 where
  parallel_embedding parallel_head column_parallel_linear : ModuleClass
  row_parallel_linear attention other_module : ModuleClass

-- A module, with the attributes that the rules read by `getattr`; `none` is an attribute that it
-- lacks.
pub record Module : Type 0 where
  pub class : ModuleClass
  pub experts_start_idx : Option ℤ
  pub experts_end_idx : Option ℤ
  pub n_local_experts : Option ℕ
  pub replicated_c4_indexer : Bool

-- `"experts." in name and "shared_experts" not in name`
unfoldable pub is_routed_name : Text → Bool
is_routed_name name =
    contains (codes "experts.") name && not (contains (codes "shared_experts") name)

or_raise {ℓ} : {A : Type ℓ} → Option A → Result A
or_raise none = err value_error
or_raise (some a) = ok a

part_at : List Text → ℕ → Result Text
part_at parts i = elim (get_elem? parts i) [ none ↦ err index_error | some w ↦ ok w ]

-- `int(parts[parts.index("experts") + 1])`
unfoldable pub routed_index : Text → Result ℤ
unfolding or_raise part_at
routed_index name = do
  let parts = split b'.' name
  i ← or_raise (index_of (codes "experts") parts)
  word ← part_at parts (i + 1)
  or_raise (parse_int word)

-- `expert_idx_from_name`
unfoldable pub expert_idx_from_name : Text → Option ℤ
expert_idx_from_name name =
    if is_routed_name name then elim (routed_index name) [ ok i ↦ some i | err _ ↦ none ] else none

-- `module_owns_expert`
unfoldable pub module_owns_expert : Module → ℤ → Bool
module_owns_expert m i =
    leb_ℤ (Option.get_or m.experts_start_idx (pos 0)) i
    && ltb_ℤ i (Option.get_or m.experts_end_idx (pos 0))

-- `is_replicated_c4_indexer_param`
unfoldable pub is_replicated_c4_indexer_param : Text → Module → Bool
is_replicated_c4_indexer_param name m =
    m.replicated_c4_indexer
    && (ends_with (codes "indexer.wq_b.weight") name
        || (ends_with (codes "indexer.weights_proj.weight") name
            || (ends_with (codes "indexer.wq_b.scale") name
                || ends_with (codes "indexer.weights_proj.scale") name)))

column_class : ModuleClass → Bool
column_class parallel_embedding = true
column_class parallel_head = true
column_class column_parallel_linear = true
column_class row_parallel_linear = false
column_class attention = false
column_class other_module = false

unfoldable pub is_column_parallel : Module → Bool
unfolding column_class
is_column_parallel m = column_class m.class

row_class : ModuleClass → Bool
row_class row_parallel_linear = true
row_class _ = false

unfoldable pub is_row_parallel : Module → Bool
unfolding row_class
is_row_parallel m = row_class m.class

attention_class : ModuleClass → Bool
attention_class attention = true
attention_class _ = false

-- `isinstance(module, Attention) and name.endswith("attn_sink")`
unfoldable pub is_attn_sink : Text → Module → Bool
unfolding attention_class
is_attn_sink name m = attention_class m.class && ends_with (codes "attn_sink") name

-- The strings that `partition_rule_kind` returns.
pub data RuleKind : Type 0 where
  expert_owned replicated_indexer column_parallel row_parallel attn_sink : RuleKind
  replicated_shared_expert replicated_baseline : RuleKind

-- `partition_rule_kind`
unfoldable pub partition_rule_kind : Text → Module → RuleKind
partition_rule_kind name m =
    if is_routed_name name
    then expert_owned
    else if is_replicated_c4_indexer_param name m
    then replicated_indexer
    else if is_column_parallel m
    then column_parallel
    else if is_row_parallel m
    then row_parallel
    else if is_attn_sink name m
    then attn_sink
    else if contains (codes "shared_experts") name
    then replicated_shared_expert
    else replicated_baseline

-- What a rank holds of a dimension: where its part starts, and how long it is.
pub record Shard : Type 0 where
  pub dim : ℕ
  pub start : ℕ
  pub size : ℕ

-- `x % world_size == 0`, `x // world_size` and `rank * shard`
unfoldable pub even_shard : ℕ → Option ℕ → ℕ → ℕ → Result Shard
even_shard dim none world_size rank = err index_error
even_shard dim (some n) world_size rank =
    if world_size == 0
    then err zero_division
    else if n % world_size == 0
    then ok (record { dim = dim; start = rank * (n / world_size); size = n / world_size })
    else err assertion_error

-- `shard_shape_for_rank`; `none` is the triple of `None`s
unfoldable pub shard_shape_for_rank : List ℕ → RuleKind → ℕ → ℕ → Result (Option Shard)
shard_shape_for_rank shape column_parallel world_size rank =
    if length shape == 1 || length shape == 2
    then (do s ← even_shard 0 (get_elem? shape 0) world_size rank; ok (some s))
    else ok none
shard_shape_for_rank shape row_parallel world_size rank =
    if length shape == 2
    then (do s ← even_shard 1 (get_elem? shape 1) world_size rank; ok (some s))
    else ok none
shard_shape_for_rank shape attn_sink world_size rank = do
  s ← even_shard 0 (get_elem? shape 0) world_size rank
  ok (some s)
shard_shape_for_rank shape _ world_size rank = ok none

-- What the rules use of a tensor.
pub record Tensors : Type 1 where
  pub Tensor : Type 0
  pub sizes : Tensor → List ℕ
  pub narrow : ℕ → ℕ → ℕ → Tensor → Tensor

module _ (torch : Tensors) where
  open torch use {Tensor, sizes, narrow}

  -- `tensor.narrow(dim, rank * shard, shard).contiguous()` after its assertion
  unfoldable pub narrowed : ℕ → Tensor → ℕ → ℕ → Result (Option Tensor)
  narrowed dim t world_size rank = do
    s ← even_shard dim (get_elem? (sizes t) dim) world_size rank
    ok (some (narrow s.dim s.start s.size t))

  -- `_attn_sink_shard`
  unfoldable pub attn_sink_shard : Text → Tensor → Module → ℕ → ℕ → Result (Option Tensor)
  attn_sink_shard name t m world_size rank =
      if is_attn_sink name m then narrowed 0 t world_size rank else ok (some t)

  outside_experts : ℤ → ℤ → ℤ → Tensor → Option Tensor
  outside_experts i start end t = if ltb_ℤ i start || leb_ℤ end i then none else some t

  -- the routed experts' branch, after the index has been read
  owned_expert : ℤ → Tensor → Module → ℕ → Option ℕ → Option Tensor
  unfolding outside_experts ◌+ℤ◌
  owned_expert i t m rank none = some t
  owned_expert i t m rank (some local) =
      let start = Option.get_or m.experts_start_idx (pos (rank * local)) in
      let end = Option.get_or m.experts_end_idx (start +ℤ pos local) in
      outside_experts i start end t

  unfoldable pub shard_expert : Text → Tensor → Module → ℕ → Result (Option Tensor)
  unfolding owned_expert
  shard_expert name t m rank = do
    i ← routed_index name
    ok (owned_expert i t m rank m.n_local_experts)

  -- `shard_tensor_for_rank`; `none` is a tensor that the rank does not own
  unfoldable pub shard_tensor_for_rank : Text → Tensor → Module → ℕ → ℕ → Result (Option Tensor)
  shard_tensor_for_rank name t m world_size rank =
      if is_routed_name name
      then shard_expert name t m rank
      else if is_replicated_c4_indexer_param name m
      then ok (some t)
      else if is_column_parallel m
      then (if length (sizes t) == 1 || length (sizes t) == 2
          then narrowed 0 t world_size rank
          else ok (some t))
      else if is_row_parallel m
      then (if length (sizes t) == 2 then narrowed 1 t world_size rank else ok (some t))
      else attn_sink_shard name t m world_size rank

  -- `shard_q8_0_blocks_for_rank`
  unfoldable pub shard_q8_0_blocks_for_rank :
      Text → Tensor → Module → ℕ → ℕ → Result (Option Tensor)
  shard_q8_0_blocks_for_rank name t m world_size rank =
      if is_routed_name name
      then shard_tensor_for_rank name t m world_size rank
      else if is_column_parallel m
      then narrowed 0 t world_size rank
      else if is_row_parallel m
      then narrowed 1 t world_size rank
      else attn_sink_shard name t m world_size rank
