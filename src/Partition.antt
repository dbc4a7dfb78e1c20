-- ===== src/Partition.antt =====
-- The partition rules of src/models/deepseek_v4/partition.py: which rank holds what. The policy and
-- its environment stand here; the shards, the layers of a pipeline and the checkpoint keys in the
-- modules below.
pub mod Rules
pub mod Layers
pub mod Keys
pub mod Laws
use pocket_mo_e.Prelude.{
  ℕ, List, [], ◌∷◌, ◌++◌, Option, none, some, Bool, true, false, not, ◌&&◌, ◌||◌, Result, ok, err,
  value_error, runtime_error, keep, map, list_eq, nat_eq, ◌==◌, if◌then◌else◌,
}
use pocket_mo_e.Prelude.Dict
use pocket_mo_e.Prelude.Dict.{Dict}
use pocket_mo_e.Prelude.Text.{Text, codes, lower, one_of, replace_first}

-- `os.environ`
abbrev pub Environ : Type 0
Environ = Dict Text Text

abbrev pub policy_legacy : Text
policy_legacy = codes "legacy"

abbrev pub policy_baseline_4gpu : Text
policy_baseline_4gpu = codes "baseline_4gpu"

abbrev pub policy_layer_pp_4gpu : Text
policy_layer_pp_4gpu = codes "layer_pp_4gpu"

-- `SUPPORTED_POLICIES`
abbrev pub supported_policies : List Text
supported_policies = policy_legacy ∷ policy_baseline_4gpu ∷ policy_layer_pp_4gpu ∷ []

-- `_BASELINE_FORBIDDEN_TRUE_ENV`
abbrev pub baseline_forbidden_true_env : List Text
baseline_forbidden_true_env =
    codes "DEEPSEEK_CPU_MOE_INPROC_SERVER"
    ∷ codes "DEEPSEEK_CPU_MOE_RANK0_SERVER"
    ∷ codes "DEEPSEEK_REPLICATED_C4_INDEXER"
    ∷ []

abbrev pub truthy_words : List Text
truthy_words = codes "1" ∷ codes "true" ∷ codes "yes" ∷ []

-- `os.getenv(name, default)`
unfoldable pub getenv : Environ → Text → Text → Text
unfolding Dict.get
getenv env name default = elim (Dict.get name env) [ none ↦ default | some v ↦ v ]

-- `value.lower() in {"1", "true", "yes"}`
unfoldable pub truthy : Text → Bool
truthy value = one_of (lower value) truthy_words

-- `_env_truthy`: the ACTIVE variable of the same name goes first
unfoldable pub env_truthy : Environ → Text → Text → Bool
env_truthy env name default =
    let active_name = replace_first (codes "DEEPSEEK_") (codes "DEEPSEEK_ACTIVE_") name in
    if Dict.has active_name env
    then truthy (getenv env active_name (codes "0"))
    else truthy (getenv env name default)

world_size_violations : Text → Option ℕ → List Text
world_size_violations policy none = []
world_size_violations policy (some n) =
    (if policy == policy_baseline_4gpu && not (n == 4) then codes "world_size" ∷ [] else [])
    ++ (if policy == policy_layer_pp_4gpu && not (n == 2 || n == 4)
        then codes "world_size" ∷ []
        else [])

-- The list that `assert_baseline_compatible_env` collects, each entry by its first words.
unfoldable pub violations : Environ → Text → Option ℕ → List Text
unfolding world_size_violations
violations env policy world_size =
    world_size_violations policy world_size
    ++ (keep (λ name. env_truthy env name (codes "0")) baseline_forbidden_true_env
        ++ ((if env_truthy env (codes "DEEPSEEK_CPU_MOE_EXTERNAL_SERVER") (codes "0")
                && not (
                    truthy
                      (getenv env (codes "DEEPSEEK_CPU_MOE_EXTERNAL_PREFILL_LOCAL") (codes "1")))
              then codes "DEEPSEEK_CPU_MOE_EXTERNAL_SERVER" ∷ []
              else [])
            ++ (if policy == policy_layer_pp_4gpu
                  && env_truthy env (codes "DEEPSEEK_DECODE_MTP_SPEC") (codes "0")
                then codes "DEEPSEEK_DECODE_MTP_SPEC" ∷ []
                else [])))

refuse_any : List Text → Result (Unit {0})
refuse_any [] = ok tt
refuse_any (v ∷ vs) = err runtime_error

-- `assert_baseline_compatible_env`
unfoldable pub assert_baseline_compatible_env : Environ → Text → Option ℕ → Result (Unit {0})
unfolding refuse_any
assert_baseline_compatible_env env policy world_size =
    if policy == policy_baseline_4gpu || policy == policy_layer_pp_4gpu
    then refuse_any (violations env policy world_size)
    else ok tt

-- `normalize_policy`
unfoldable pub normalize_policy : Option Text → Result Text
normalize_policy none = ok policy_legacy
normalize_policy (some policy) =
    if one_of policy supported_policies then ok policy else err value_error

-- `is_layer_pp_policy`
unfoldable pub is_layer_pp_policy : Text → Bool
is_layer_pp_policy policy = policy == policy_layer_pp_4gpu
