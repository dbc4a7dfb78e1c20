-- ===== src/Partition/Laws/Shards.antt =====
-- The shards of a dimension tile it, and the shape-only rule agrees with the one that cuts tensors.
use native.Mathlib.Nat.{div-add-mod, le-div_iff_mul-le, div-lt_iff_lt-mul, mul-zero, suc-mul}
use native.Mathlib.Decide.{dec_lt}
use pocket_mo_e.Prelude.{
  ℕ, suc, ◌+◌, ◌*◌, ◌/◌, ◌%◌, ◌<◌, ◌≡◌, Option, none, some, Bool, false, ◌&&◌, Result, ok, err,
  ◌>>=◌, arith, leb, ltb, nat_eqb, nat_eq,
}
use pocket_mo_e.Prelude.Text.{Text}
use pocket_mo_e.Partition.Rules.{
  Module, Shard, Tensors, is_routed_name, partition_rule_kind, even_shard, shard_shape_for_rank,
  narrowed, attn_sink_shard, shard_tensor_for_rank,
}

-- whether the shard has the index
abbrev pub has_index : Result Shard → ℕ → Bool
has_index (err e) i = false
has_index (ok s) i = leb s.start i && ltb i (s.start + s.size)

same_rank :
    (r i size : ℕ) → 0 < size → (leb (r * size) i && ltb i (r * size + size)) ≡ nat_eqb r (i / size)
same_rank r i size h = ground (
  arith,
  (le-div_iff_mul-le {k = size} {x = r} {y = i} h).0,
  (le-div_iff_mul-le {k = size} {x = r} {y = i} h).1,
  (le-div_iff_mul-le {k = size} {x = suc r} {y = i} h).0,
  (le-div_iff_mul-le {k = size} {x = suc r} {y = i} h).1,
  suc-mul r size,
)

size_pos : (n world_size i : ℕ) → world_size * (n / world_size) ≡ n → i < n → 0 < n / world_size
size_pos n ws i e h = elim (dec_lt 0 (n / ws)) [
  | yes p ↦ p
  | no p ↦
      let z : n / ws ≡ 0 = omega arith in absurd (let e' = rw (z, mul-zero) at e in omega arith)
]

-- When the size of a dimension is divisible by the number of ranks, which is not 0, each index
-- below the size is in the shard of one rank and of no other.
pub even_shard-tiles :
    (dim n world_size i : ℕ)
    → 0 < world_size
    → n % world_size ≡ 0
    → i < n
    → (r : ℕ) × (r < world_size)
      × ((r' : ℕ) → has_index (even_shard dim (some n) world_size r') i ≡ nat_eqb r' r)
unfolding even_shard
even_shard-tiles dim n ws i p even h =
    let size : ℕ = n / ws in
    let whole : ws * (n / ws) ≡ n = omega (arith, div-add-mod n ws) in
    let pos_size = size_pos n ws i whole h in
    (
      i / (n / ws),
      (div-lt_iff_lt-mul pos_size).1 (rw whole h),
      λ r'. ground (arith, same_rank r' i (n / ws) pos_size),
    )

module _ (torch : Tensors) where
  open torch use {Tensor, sizes, narrow}

  -- what a lazy loader makes of the shape-only answer
  abbrev pub cut : Tensor → Option Shard → Tensor
  cut t none = t
  cut t (some s) = narrow s.dim s.start s.size t

  -- For a name that is not a routed expert's, cutting a tensor is asking for its shard by shape
  -- and kind of rule, and then narrowing to it: the two agree on every branch, failed assertions
  -- included.
  pub shard_tensor-shard_shape :
      (name : Text) (t : Tensor) (m : Module) (world_size rank : ℕ)
      → is_routed_name name ≡ false
      → shard_tensor_for_rank torch name t m world_size rank ≡ (do
        s ← shard_shape_for_rank (sizes t) (partition_rule_kind name m) world_size rank
        ok (some (cut t s)))
  unfolding shard_tensor_for_rank shard_shape_for_rank partition_rule_kind narrowed attn_sink_shard
  shard_tensor-shard_shape name t m world_size rank h = ground arith
