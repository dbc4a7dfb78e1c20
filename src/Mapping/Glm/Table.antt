-- ===== src/Mapping/Glm/Table.antt =====
-- The tables of the tensors of GLM-DSA GGUF files (loader/mappings/glm_dsa.py).
use pocket_mo_e.Prelude.{String, [], ◌∷◌}
use pocket_mo_e.Prelude.Dict.{Dict}
use pocket_mo_e.Prelude.Text.{Text, codes}
use pocket_mo_e.Mapping.Table.{Transform, direct, transpose, routed_expert_transpose}

-- a row: the logical name, the role and the transform
pub record LogicalRow : Type 0 where
  pub logical : Text
  pub logical_role : Text
  pub logical_transform : Transform

abbrev pub entry : String → String → String → Transform → Text × LogicalRow
entry source logical role transform = (
  codes source,
  record { logical = codes logical; logical_role = codes role; logical_transform = transform },
)

-- `GLOBAL_TENSORS`
abbrev pub glm_global_tensors : Dict Text LogicalRow
glm_global_tensors =
    entry "token_embd.weight" "embed_tokens.weight" "embedding" transpose
    ∷ entry "output.weight" "lm_head.weight" "lm_head" transpose
    ∷ entry "output_norm.weight" "final_norm.weight" "final_norm" direct
    ∷ []

-- `DENSE_LAYER_TENSORS`
abbrev pub dense_layer_tensors : Dict Text LogicalRow
dense_layer_tensors =
    entry "attn_k_b.weight" "self_attn.k_b_proj.weight" "attn_k_b" direct
    ∷ entry "attn_kv_a_mqa.weight" "self_attn.kv_a_mqa_proj.weight" "attn_kv_a" transpose
    ∷ entry "attn_kv_a_norm.weight" "self_attn.kv_a_norm.weight" "attn_norm" direct
    ∷ entry "attn_norm.weight" "input_layernorm.weight" "attn_norm" direct
    ∷ entry "attn_output.weight" "self_attn.o_proj.weight" "attn_o" transpose
    ∷ entry "attn_q_a.weight" "self_attn.q_a_proj.weight" "attn_q_a" transpose
    ∷ entry "attn_q_a_norm.weight" "self_attn.q_a_norm.weight" "attn_norm" direct
    ∷ entry "attn_q_b.weight" "self_attn.q_b_proj.weight" "attn_q_b" transpose
    ∷ entry "attn_v_b.weight" "self_attn.v_b_proj.weight" "attn_v_b" direct
    ∷ entry "ffn_down.weight" "mlp.down_proj.weight" "dense_w2" transpose
    ∷ entry "ffn_gate.weight" "mlp.gate_proj.weight" "dense_w1" transpose
    ∷ entry "ffn_norm.weight" "post_attention_layernorm.weight" "ffn_norm" direct
    ∷ entry "ffn_up.weight" "mlp.up_proj.weight" "dense_w3" transpose
    ∷ entry "indexer.attn_k.weight" "self_attn.indexer.k_proj.weight" "indexer_attn_k" transpose
    ∷ entry "indexer.attn_q_b.weight" "self_attn.indexer.q_b_proj.weight" "indexer_attn_q_b"
        transpose
    ∷ entry "indexer.k_norm.bias" "self_attn.indexer.k_norm.bias" "indexer_norm" direct
    ∷ entry "indexer.k_norm.weight" "self_attn.indexer.k_norm.weight" "indexer_norm" direct
    ∷ entry "indexer.proj.weight" "self_attn.indexer.proj.weight" "indexer_proj" transpose
    ∷ []

-- `MOE_LAYER_TENSORS`
abbrev pub moe_layer_tensors : Dict Text LogicalRow
moe_layer_tensors =
    entry "attn_k_b.weight" "self_attn.k_b_proj.weight" "attn_k_b" direct
    ∷ entry "attn_kv_a_mqa.weight" "self_attn.kv_a_mqa_proj.weight" "attn_kv_a" transpose
    ∷ entry "attn_kv_a_norm.weight" "self_attn.kv_a_norm.weight" "attn_norm" direct
    ∷ entry "attn_norm.weight" "input_layernorm.weight" "attn_norm" direct
    ∷ entry "attn_output.weight" "self_attn.o_proj.weight" "attn_o" transpose
    ∷ entry "attn_q_a.weight" "self_attn.q_a_proj.weight" "attn_q_a" transpose
    ∷ entry "attn_q_a_norm.weight" "self_attn.q_a_norm.weight" "attn_norm" direct
    ∷ entry "attn_q_b.weight" "self_attn.q_b_proj.weight" "attn_q_b" transpose
    ∷ entry "attn_v_b.weight" "self_attn.v_b_proj.weight" "attn_v_b" direct
    ∷ entry "exp_probs_b.bias" "mlp.router.bias" "gate_bias" direct
    ∷ entry "ffn_down_exps.weight" "mlp.experts.routed.w2" "routed_w2" routed_expert_transpose
    ∷ entry "ffn_down_shexp.weight" "mlp.shared_experts.w2" "shared_w2" transpose
    ∷ entry "ffn_gate_exps.weight" "mlp.experts.routed.w1" "routed_w1" routed_expert_transpose
    ∷ entry "ffn_gate_inp.weight" "mlp.router.weight" "gate" transpose
    ∷ entry "ffn_gate_shexp.weight" "mlp.shared_experts.w1" "shared_w1" transpose
    ∷ entry "ffn_norm.weight" "post_attention_layernorm.weight" "ffn_norm" direct
    ∷ entry "ffn_up_exps.weight" "mlp.experts.routed.w3" "routed_w3" routed_expert_transpose
    ∷ entry "ffn_up_shexp.weight" "mlp.shared_experts.w3" "shared_w3" transpose
    ∷ entry "indexer.attn_k.weight" "self_attn.indexer.k_proj.weight" "indexer_attn_k" transpose
    ∷ entry "indexer.attn_q_b.weight" "self_attn.indexer.q_b_proj.weight" "indexer_attn_q_b"
        transpose
    ∷ entry "indexer.k_norm.bias" "self_attn.indexer.k_norm.bias" "indexer_norm" direct
    ∷ entry "indexer.k_norm.weight" "self_attn.indexer.k_norm.weight" "indexer_norm" direct
    ∷ entry "indexer.proj.weight" "self_attn.indexer.proj.weight" "indexer_proj" transpose
    ∷ []

-- `NEXTN_TENSORS`
abbrev pub nextn_tensors : Dict Text LogicalRow
nextn_tensors =
    entry "nextn.eh_proj.weight" "nextn.eh_proj.weight" "nextn" transpose
    ∷ entry "nextn.enorm.weight" "nextn.enorm.weight" "nextn_norm" direct
    ∷ entry "nextn.hnorm.weight" "nextn.hnorm.weight" "nextn_norm" direct
    ∷ entry "nextn.shared_head_norm.weight" "nextn.shared_head_norm.weight" "nextn_norm" direct
    ∷ []
