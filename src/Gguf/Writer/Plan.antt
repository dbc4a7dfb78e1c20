-- ===== src/Gguf/Writer/Plan.antt =====
-- Which tensors are converted, and where each payload goes: `_routed_spec`,
-- `_selected_routed_tensor`, `_plan_rewrite` and the offsets of `rewrite_gguf`
-- (cli/make_routed_source_gguf.py).
use pocket_mo_e.Prelude.{
  ℕ, ◌+◌, ◌*◌, List, [], ◌∷◌, Option, none, some, Bool, true, false, not, ◌||◌, Result, ok, err,
  ◌>>=◌, value_error, key_error, product, any, list_eq, nat_eq, ◌==◌, leb, nat_eqb, if◌then◌else◌,
}
use pocket_mo_e.Prelude.Dict
use pocket_mo_e.Prelude.Dict.{Dict}
use pocket_mo_e.Prelude.Int.{ℤ, pos, negsuc, ◌+ℤ◌}
use pocket_mo_e.Prelude.Text.{Text, codes, split, parse_int}
use pocket_mo_e.Gguf.Types.{align_up}
use pocket_mo_e.Gguf.Reader.{GgufTensorInfo}

pub record RoutedTensorSpec : Type 0 where
  pub layer : ℤ
  pub role : Text
  pub source_suffix : Text

-- the source suffix of a role; `none` for a role that is not routed
unfoldable pub source_suffix_of : Text → Option Text
source_suffix_of role =
    if role == codes "ffn_gate_exps"
    then some (codes "w1")
    else if role == codes "ffn_down_exps"
    then some (codes "w2")
    else if role == codes "ffn_up_exps"
    then some (codes "w3")
    else none

routed_of : Text → Option ℤ → Option Text → Option RoutedTensorSpec
routed_of role none suffix = none
routed_of role (some layer) none = none
routed_of role (some layer) (some suffix) =
    some (record { layer = layer; role = role; source_suffix = suffix })

routed_parts : List Text → Option RoutedTensorSpec
unfolding source_suffix_of routed_of
routed_parts (blk ∷ layer ∷ role ∷ weight ∷ []) =
    if not (blk == codes "blk") || not (weight == codes "weight")
    then none
    else routed_of role (parse_int layer) (source_suffix_of role)
routed_parts _ = none

-- `_routed_spec`
unfoldable pub routed_spec : Text → Option RoutedTensorSpec
unfolding routed_parts
routed_spec name = routed_parts (split b'.' name)

abbrev int_beq : ℤ → ℤ → Bool
int_beq (pos a) (pos b) = nat_eqb a b
int_beq (pos a) (negsuc b) = false
int_beq (negsuc a) (pos b) = false
int_beq (negsuc a) (negsuc b) = nat_eqb a b

-- `x is not None and y not in x`, for the three limits
outside {ℓ} : {A : Type ℓ} → (A → A → Bool) → A → Option (List A) → Bool
outside same a none = false
outside same a (some l) = not (any (same a) l)

reached : Option ℕ → ℕ → Bool
reached none selected = false
reached (some most) selected = leb most selected

pub record Selection : Type 0 where
  pub layers : Option (List ℤ)
  pub roles : Option (List Text)
  pub max_count : Option ℕ

selected_spec : Selection → ℕ → Option RoutedTensorSpec → Bool
unfolding outside reached
selected_spec s so_far none = false
selected_spec s so_far (some spec) =
    if outside int_beq spec.layer s.layers
    then false
    else if outside ◌==◌ spec.role s.roles
    then false
    else if reached s.max_count so_far
    then false
    else true

-- `_selected_routed_tensor`
unfoldable pub selected_routed_tensor : Selection → Text → ℕ → Bool
unfolding selected_spec
selected_routed_tensor s name so_far = selected_spec s so_far (routed_spec name)

pub record RewritePlan : Type 0 where
  pub type_ids : Dict Text ℕ
  pub nbytes : Dict Text ℕ
  pub total_size : ℤ
  pub converted_routed_tensors : ℕ
  pub converted_routed_bytes : ℕ

abbrev pub empty_plan : RewritePlan
empty_plan = record {
  type_ids = [];
  nbytes = [];
  total_size = pos 0;
  converted_routed_tensors = 0;
  converted_routed_bytes = 0;
}

-- `F16_GGML_TYPE`
abbrev pub f16_ggml_type : ℕ
f16_ggml_type = 1

known_nbytes : Option ℕ → Result ℕ
known_nbytes none = err value_error
known_nbytes (some n) = ok n

-- the type and the size that one tensor is written with
unfoldable pub planned : Selection → GgufTensorInfo → ℕ → Result (ℕ × ℕ)
unfolding known_nbytes
planned s t so_far =
    if selected_routed_tensor s t.name so_far
    then ok (f16_ggml_type, product t.dimensions * 2)
    else (do n ← known_nbytes t.nbytes; ok (t.type_id, n))

-- what the loop of `_plan_rewrite` adds for one tensor
unfoldable pub add_planned : GgufTensorInfo → Bool → ℕ → ℕ → ℤ → RewritePlan → RewritePlan
add_planned t selected type_id size padded plan = record {
  type_ids = Dict.put t.name type_id plan.type_ids;
  nbytes = Dict.put t.name size plan.nbytes;
  total_size = plan.total_size +ℤ padded;
  converted_routed_tensors =
      if selected then plan.converted_routed_tensors + 1 else plan.converted_routed_tensors;
  converted_routed_bytes =
      if selected then plan.converted_routed_bytes + size else plan.converted_routed_bytes;
}

-- the loop of `_plan_rewrite`
unfoldable pub plan_from : Selection → ℤ → List GgufTensorInfo → RewritePlan → Result RewritePlan
plan_from s alignment [] plan = ok plan
plan_from s alignment (t ∷ ts) plan = do
  let so_far = plan.converted_routed_tensors
  (type_id, size) ← planned s t so_far
  padded ← align_up (pos size) alignment
  plan_from s alignment ts
      (add_planned t (selected_routed_tensor s t.name so_far) type_id size padded plan)

-- `_plan_rewrite`
unfoldable pub plan_rewrite : Selection → ℤ → List GgufTensorInfo → Result RewritePlan
plan_rewrite s alignment tensors = plan_from s alignment tensors empty_plan

-- the loop of `rewrite_gguf` that gives each payload its offset, from offset `off`
unfoldable pub offsets_from :
    ℤ → Dict Text ℕ → List GgufTensorInfo → ℤ → Dict Text ℤ → Result (Dict Text ℤ × ℤ)
unfolding Dict.put Dict.get align_up ◌+ℤ◌
offsets_from alignment nbytes [] off offsets = ok (offsets, off)
offsets_from alignment nbytes (t ∷ ts) off offsets = do
  size ← elim (Dict.get t.name nbytes) [ none ↦ err key_error | some n ↦ ok n ]
  padded ← align_up (pos size) alignment
  offsets_from alignment nbytes ts (off +ℤ padded) (Dict.put t.name off offsets)
