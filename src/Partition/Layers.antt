-- ===== src/Partition/Layers.antt =====
-- The layers of a pipeline stage: `_layer_range_for_rank`, `layer_owner_rank` and
-- `parameter_owner_rank` (models/deepseek_v4/partition.py).
use pocket_mo_e.Prelude.{
  ℕ, ◌+◌, ◌*◌, ◌/◌, List, [], ◌∷◌, Option, none, some, Bool, ◌&&◌, ◌||◌, Result, ok, err, ◌>>=◌,
  value_error, range, get_elem?, leb, ltb, nat_eq, if◌then◌else◌,
}
use pocket_mo_e.Prelude.Int.{ℤ, pos, negsuc, sub_ℕ}
use pocket_mo_e.Prelude.Text.{Text, codes, split, starts_with, all_digits, parse_int}

-- `_layer_range_for_rank`
unfoldable pub layer_start : ℕ → ℕ → ℕ → ℕ
layer_start n_layers pp_size pp_rank = (pp_rank * n_layers) / pp_size

unfoldable pub layer_range_for_rank : ℕ → ℕ → ℕ → ℕ × ℕ
layer_range_for_rank n_layers pp_size pp_rank =
    (layer_start n_layers pp_size pp_rank, layer_start n_layers pp_size (pp_rank + 1))

in_range : ℕ × ℕ → ℕ → Bool
in_range (start, end) i = leb start i && ltb i end

-- the loop of `layer_owner_rank`
unfoldable pub owner_among : ℕ → ℕ → ℕ → List ℕ → Result ℕ
unfolding in_range
owner_among layer_idx n_layers pp_size [] = err value_error
owner_among layer_idx n_layers pp_size (r ∷ rs) =
    if in_range (layer_range_for_rank n_layers pp_size r) layer_idx
    then ok r
    else owner_among layer_idx n_layers pp_size rs

-- `layer_owner_rank`
unfoldable pub layer_owner_rank : ℕ → ℕ → ℕ → Result ℕ
layer_owner_rank layer_idx n_layers pp_size = owner_among layer_idx n_layers pp_size (range pp_size)

-- `int(parts[1])` of a part that `isdigit()` accepts
layer_of : Option Text → Option ℕ
layer_of none = none
layer_of (some word) =
    if all_digits word
    then elim (parse_int word) [
      | none ↦ none
      | some z ↦ elim z [ pos n ↦ some n | negsuc n ↦ none ]
    ]
    else none

-- `name.split(".")[1]`, if it is a layer's number
unfoldable pub layer_number : Text → Option ℕ
unfolding layer_of
layer_number name = layer_of (get_elem? (split b'.' name) 1)

-- `pp_size - 1`
last_rank : ℕ → ℤ
last_rank pp_size = sub_ℕ pp_size 1

owner_of_rest : Text → ℕ → Option ℤ
unfolding last_rank
owner_of_rest name pp_size =
    if starts_with (codes "mtp.") name then some (last_rank pp_size) else none

unfoldable pub owner_of_layer : Text → ℕ → ℕ → Option ℕ → Result (Option ℤ)
unfolding owner_of_rest
owner_of_layer name n_layers pp_size none = ok (owner_of_rest name pp_size)
owner_of_layer name n_layers pp_size (some layer) = do
  r ← layer_owner_rank layer n_layers pp_size
  ok (some (pos r))

-- `parameter_owner_rank`; `none` is a parameter that every rank holds
unfoldable pub parameter_owner_rank : Text → ℕ → ℕ → Result (Option ℤ)
unfolding owner_of_rest last_rank
parameter_owner_rank name n_layers pp_size =
    if starts_with (codes "embed.") name
    then ok (some (pos 0))
    else if starts_with (codes "norm.") name
        || (starts_with (codes "head.") name || starts_with (codes "hc_head_") name)
    then ok (some (last_rank pp_size))
    else if starts_with (codes "layers.") name
    then owner_of_layer name n_layers pp_size (layer_number name)
    else ok (owner_of_rest name pp_size)
