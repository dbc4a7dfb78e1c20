-- ===== src/Partition/Keys.antt =====
-- Which checkpoint keys a rank loads: `checkpoint_key_is_needed_for_rank` and
-- `checkpoint_key_is_needed_for_policy` (models/deepseek_v4/partition.py).
use pocket_mo_e.Prelude.{
  ℕ, ◌-◌, List, [], ◌∷◌, ◌++◌, Option, none, some, Bool, true, false, not, ◌&&◌, Result, ok, err,
  ◌>>=◌, value_error, length, take, list_eq, nat_eq, ◌==◌, if◌then◌else◌,
}
use pocket_mo_e.Prelude.Dict
use pocket_mo_e.Prelude.Dict.{Dict}
use pocket_mo_e.Prelude.Int.{ℤ, pos, negsuc}
use pocket_mo_e.Prelude.Text.{Text, codes, split, join, one_of, ends_with, index_of}
use pocket_mo_e.Partition.{is_layer_pp_policy}
use pocket_mo_e.Partition.Layers.{parameter_owner_rank}
use pocket_mo_e.Partition.Rules.{Module, expert_idx_from_name, module_owns_expert}

-- `key.endswith(".scale") and f"{key[:-6]}.weight" in state_keys`
unfoldable pub is_folded_scale : Text → List Text → Bool
is_folded_scale key state_keys =
    ends_with (codes ".scale") key
    && one_of (take (length key - 6) key ++ codes ".weight") state_keys

-- the text before the last `.`, from the parts of a split; empty if there is no `.`
all_but_last : List Text → List Text
all_but_last [] = []
all_but_last (w ∷ []) = []
all_but_last (w ∷ w' ∷ ws) = w ∷ all_but_last (w' ∷ ws)

-- `key.rpartition('.')[0]`
unfoldable pub module_name : Text → Text
unfolding all_but_last
module_name key = join b'.' (all_but_last (split b'.' key))

parts_before : Option ℕ → List Text → List Text
parts_before none parts = parts
parts_before (some i) parts = take i parts

-- `'.'.join(parts[:parts.index("experts")])`
unfoldable pub owner_name : Text → Text
unfolding parts_before
owner_name key =
    let parts = split b'.' key in join b'.' (parts_before (index_of (codes "experts") parts) parts)

owner_owns : Option Module → ℤ → Bool
owner_owns none i = false
owner_owns (some m) i = module_owns_expert m i

needed_by_owner : Text → Dict Text Module → Option ℤ → Bool
unfolding owner_owns
needed_by_owner key modules none = true
needed_by_owner key modules (some i) = owner_owns (Dict.get (owner_name key) modules) i

-- `checkpoint_key_is_needed_for_rank`
unfoldable pub checkpoint_key_is_needed_for_rank : Text → List Text → Dict Text Module → Bool
unfolding needed_by_owner
checkpoint_key_is_needed_for_rank key state_keys modules =
    if is_folded_scale key state_keys
    then false
    else if not (one_of key state_keys)
    then false
    else if not (Dict.has (module_name key) modules)
    then false
    else needed_by_owner key modules (expert_idx_from_name key)

owner_is : ℕ → Option ℤ → Bool
owner_is rank none = true
owner_is rank (some (pos r)) = r == rank
owner_is rank (some (negsuc r)) = false

needed_by_stage : Text → Option ℕ → ℕ → ℕ → Result Bool
unfolding owner_is
needed_by_stage key none world_size rank = err value_error
needed_by_stage key (some n_layers) world_size rank = do
  owner ← parameter_owner_rank key n_layers world_size
  ok (owner_is rank owner)

-- `checkpoint_key_is_needed_for_policy`
unfoldable pub checkpoint_key_is_needed_for_policy :
    Text → List Text → Dict Text Module → Text → ℕ → ℕ → Option ℕ → Result Bool
unfolding needed_by_stage
checkpoint_key_is_needed_for_policy key state_keys modules policy world_size rank n_layers =
    if is_folded_scale key state_keys
    then ok false
    else if not (one_of key state_keys)
    then ok false
    else if is_layer_pp_policy policy
    then needed_by_stage key n_layers world_size rank
    else ok (checkpoint_key_is_needed_for_rank key state_keys modules)
