-- ===== src/Planning.antt =====
-- What the types of tensors are good for, and where the experts go: components/moe/capability.py
-- and components/moe/placement.py. The notes and reasons, which are texts for a report, are left
-- out; the bytes of a GPU that may be used are a float's, and an argument.
pub mod Counts
pub mod Laws
use pocket_mo_e.Prelude.{
  ℕ, zero, suc, String, List, [], ◌∷◌, Option, none, some, Bool, true, false, ◌&&◌, ◌||◌, list_eq,
  nat_eq, ◌==◌, if◌then◌else◌,
}
use pocket_mo_e.Prelude.Dict
use pocket_mo_e.Prelude.Dict.{Dict}
use pocket_mo_e.Prelude.Int.{ℤ, pos, negsuc, ◌+ℤ◌, floor_div_pos, leb_ℤ}
use pocket_mo_e.Prelude.Text.{Text, codes, one_of}

-- `QuantCapability`
pub record QuantCapability : Type 0 where
  pub type_name : Text
  pub header_supported : Bool
  pub payload_reader_supported : Bool
  pub routed_raw_supported : Bool
  pub runtime_supported : Bool

abbrev pub known : String → Bool → Bool → Bool → Bool → Text × QuantCapability
known name header payload routed runtime = (
  codes name,
  record {
    type_name = codes name;
    header_supported = header;
    payload_reader_supported = payload;
    routed_raw_supported = routed;
    runtime_supported = runtime;
  },
)

-- `_CAPABILITIES`
abbrev pub capabilities : Dict Text QuantCapability
capabilities =
    known "f32" true true false true
    ∷ known "f16" true true false true
    ∷ known "bf16" true true false true
    ∷ known "i32" true true false true
    ∷ known "q8_0" true true true true
    ∷ known "q2_k" true true true true
    ∷ known "q3_k" true true false false
    ∷ known "iq2_xxs" true true true true
    ∷ known "iq2_xs" true true false false
    ∷ known "iq3_xxs" true true false false
    ∷ known "iq1_m" true true true true
    ∷ known "iq4_xs" true true false false
    ∷ known "q4_k" true true true true
    ∷ known "q5_k" true true true true
    ∷ known "q6_k" true true false false
    ∷ []

or_unknown : Text → Option QuantCapability → QuantCapability
or_unknown name none = record {
  type_name = name;
  header_supported = false;
  payload_reader_supported = false;
  routed_raw_supported = false;
  runtime_supported = false;
}
or_unknown name (some c) = c

-- `quant_capability`
unfoldable pub quant_capability : Text → QuantCapability
unfolding or_unknown
quant_capability name = or_unknown name (Dict.get name capabilities)

pub data Status : Type 0 where
  supported deferred unsupported : Status

glm_status : QuantCapability → Status
glm_status c = if c.header_supported && c.payload_reader_supported then deferred else unsupported

general_status : QuantCapability → Status
general_status c =
    if c.runtime_supported then supported else if c.header_supported then deferred else unsupported

-- what MiniMax-M2 runs with kernels of its own
minimax_runs : Text → Text → Bool
minimax_runs role name =
    (one_of role (codes "routed_w1" ∷ codes "routed_w2" ∷ codes "routed_w3" ∷ [])
      && name == codes "iq2_xxs")
    || ((one_of role (codes "attn_q" ∷ codes "attn_k" ∷ codes "attn_v" ∷ codes "attn_o" ∷ [])
          && name == codes "q5_k")
        || ((one_of role (codes "embedding" ∷ codes "lm_head" ∷ []) && name == codes "q4_k")
            || name == codes "f32"))

-- the status that `capability_status_for_role` answers
unfoldable pub capability_status_for_role : Text → Text → Text → Status
unfolding glm_status general_status minimax_runs
capability_status_for_role role name architecture =
    if architecture == codes "glm-dsa"
    then glm_status (quant_capability name)
    else if architecture == codes "minimax-m2" && minimax_runs role name
    then supported
    else general_status (quant_capability name)

-- `estimate_even_shard`
unfoldable pub estimate_even_shard : ℤ → ℤ → ℤ
estimate_even_shard total (negsuc n) = total
estimate_even_shard total (pos n) = elim n [
  | zero ↦ total
  | suc k ↦ floor_div_pos (total +ℤ pos k) (suc k)
]

-- `PlacementDecision`, without its reason; `candidate` is its status, or else deferred
pub record PlacementDecision : Type 0 where
  pub name : Text
  pub candidate : Bool
  pub estimated_bytes : ℤ
  pub estimated_bytes_per_gpu : Option ℤ

-- `lowbit_device_resident_decision`
unfoldable pub lowbit_device_resident_decision : ℤ → ℤ → ℤ → PlacementDecision
lowbit_device_resident_decision total_bytes gpu_count usable =
    let per_gpu = estimate_even_shard total_bytes gpu_count in
    record {
      name = codes "all_device_lowbit";
      candidate = leb_ℤ per_gpu usable;
      estimated_bytes = total_bytes;
      estimated_bytes_per_gpu = some per_gpu;
    }

-- `heterogeneous_expert_decision`
unfoldable pub heterogeneous_expert_decision : ℤ → PlacementDecision
heterogeneous_expert_decision routed_bytes = record {
  name = codes "heterogeneous_routed_experts";
  candidate = true;
  estimated_bytes = routed_bytes;
  estimated_bytes_per_gpu = none;
}
