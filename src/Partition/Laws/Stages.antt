-- ===== src/Partition/Laws/Stages.antt =====
-- Under the pipeline policy each checkpoint key is loaded by its owner alone, or by every rank.
use pocket_mo_e.Prelude.{
  ℕ, ◌<◌, ◌≡◌, List, Option, none, some, true, false, ok, arith, nat_eq, list_eq, ◌==◌, ltb,
  Bool-cases, inl, inr,
}
use pocket_mo_e.Prelude.Dict.{Dict}
use pocket_mo_e.Prelude.Int.{ℤ, pos, pos_part}
use pocket_mo_e.Prelude.Text.{Text, one_of}
use pocket_mo_e.Partition.{policy_layer_pp_4gpu, is_layer_pp_policy}
use pocket_mo_e.Partition.Keys.{is_folded_scale, checkpoint_key_is_needed_for_policy}
use pocket_mo_e.Partition.Layers.{
  layer_owner_rank, layer_number, owner_of_layer, parameter_owner_rank,
}
use pocket_mo_e.Partition.Laws.Owners.{layer_owner_rank-total, layer_owner_rank-past_end}
use pocket_mo_e.Partition.Rules.{Module}

layer_owner_rank-lt : (l n pp : ℕ) {r : ℕ} → 0 < pp → layer_owner_rank l n pp ≡ ok r → r < pp
layer_owner_rank-lt l n pp p h = elim (Bool-cases (ltb l n)) [
  | inl inside ↦
      let (s, found, below, _) = layer_owner_rank-total l n pp p (ground arith) in ground arith
  | inr outside ↦ ground (arith, layer_owner_rank-past_end l n pp)
]

-- an owner that is a rank of the pipeline
abbrev IsRank : ℕ → ℤ → Type 0
IsRank pp z = (z ≡ pos (pos_part z)) × (pos_part z < pp)

owner_of_layer-IsRank :
    (name : Text) (n pp : ℕ) (o : Option ℕ) {z : ℤ}
    → 0 < pp
    → owner_of_layer name n pp o ≡ ok (some z)
    → IsRank pp z
unfolding owner_of_layer
owner_of_layer-IsRank name n pp none p h = ground arith
owner_of_layer-IsRank name n pp (some l) p h = grind (arith, layer_owner_rank-lt l n pp)

parameter_owner_rank-IsRank :
    (name : Text) (n pp : ℕ) {z : ℤ}
    → 0 < pp
    → parameter_owner_rank name n pp ≡ ok (some z)
    → IsRank pp z
unfolding parameter_owner_rank
parameter_owner_rank-IsRank name n pp {z} p h =
    ground (arith, owner_of_layer-IsRank name n pp (layer_number name) {z = z} p)

module _ (key : Text) (state_keys : List Text) (modules : Dict Text Module) (world_size n : ℕ) where
  -- Under the layer pipeline policy a key of the state that is no folded scale, and for which
  -- `parameter_owner_rank` names an owner, is loaded by exactly one rank, which is one of the
  -- world.
  pub owned_key-one_rank :
      {owner : ℤ}
      → 0 < world_size
      → is_folded_scale key state_keys ≡ false
      → one_of key state_keys ≡ true
      → parameter_owner_rank key n world_size ≡ ok (some owner)
      → (r : ℕ) × (r < world_size)
        × ((rank : ℕ)
            → checkpoint_key_is_needed_for_policy key state_keys modules policy_layer_pp_4gpu
                world_size rank
                (some n)
              ≡ ok (r == rank))
  unfolding checkpoint_key_is_needed_for_policy is_layer_pp_policy
  owned_key-one_rank {owner} p f m h =
      let (is_pos, below) = parameter_owner_rank-IsRank key n world_size p h in
      (pos_part owner, below, λ rank. rw (f, m, h, is_pos))

  -- A key with no owner is loaded by every rank.
  pub shared_key-every_rank :
      (rank : ℕ)
      → is_folded_scale key state_keys ≡ false
      → one_of key state_keys ≡ true
      → parameter_owner_rank key n world_size ≡ ok none
      → checkpoint_key_is_needed_for_policy key state_keys modules policy_layer_pp_4gpu world_size
          rank
          (some n)
        ≡ ok true
  unfolding checkpoint_key_is_needed_for_policy is_layer_pp_policy
  shared_key-every_rank rank f m h = rw (f, m, h)
