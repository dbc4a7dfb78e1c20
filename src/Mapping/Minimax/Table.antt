-- ===== src/Mapping/Minimax/Table.antt =====
-- The tables of the tensors of MiniMax-M2 GGUF files (loader/mappings/minimax_m2.py).
use pocket_mo_e.Prelude.{String, [], ◌∷◌}
use pocket_mo_e.Prelude.Dict.{Dict}
use pocket_mo_e.Prelude.Text.{Text, codes}
use pocket_mo_e.Mapping.Table.{Transform, direct, transpose, routed_expert_transpose}
use pocket_mo_e.Mapping.Glm.Table.{LogicalRow}

-- a row, with the type that the tensor is expected to have
pub record TypedRow : Type 0 where
  pub row_of : LogicalRow
  pub expected_type : Text

abbrev pub typed_entry : String → String → String → Transform → String → Text × TypedRow
typed_entry source logical role transform type_name = (
  codes source,
  record {
    row_of = record {
      logical = codes logical;
      logical_role = codes role;
      logical_transform = transform;
    };
    expected_type = codes type_name;
  },
)

-- `GLOBAL_TENSORS`
abbrev pub minimax_global_tensors : Dict Text TypedRow
minimax_global_tensors =
    typed_entry "token_embd.weight" "embed_tokens.weight" "embedding" transpose "q4_k"
    ∷ typed_entry "output.weight" "lm_head.weight" "lm_head" transpose "q4_k"
    ∷ typed_entry "output_norm.weight" "final_norm.weight" "final_norm" direct "f32"
    ∷ []

-- `LAYER_TENSORS`
abbrev pub minimax_layer_tensors : Dict Text TypedRow
minimax_layer_tensors =
    typed_entry "attn_q.weight" "self_attn.q_proj.weight" "attn_q" transpose "q5_k"
    ∷ typed_entry "attn_q_norm.weight" "self_attn.q_norm.weight" "attn_norm" direct "f32"
    ∷ typed_entry "attn_k.weight" "self_attn.k_proj.weight" "attn_k" transpose "q5_k"
    ∷ typed_entry "attn_k_norm.weight" "self_attn.k_norm.weight" "attn_norm" direct "f32"
    ∷ typed_entry "attn_v.weight" "self_attn.v_proj.weight" "attn_v" transpose "q5_k"
    ∷ typed_entry "attn_output.weight" "self_attn.o_proj.weight" "attn_o" transpose "q5_k"
    ∷ typed_entry "attn_norm.weight" "input_layernorm.weight" "attn_norm" direct "f32"
    ∷ typed_entry "ffn_gate_inp.weight" "mlp.router.weight" "gate" transpose "f32"
    ∷ typed_entry "exp_probs_b.bias" "mlp.router.bias" "gate_bias" direct "f32"
    ∷ typed_entry "ffn_gate_exps.weight" "mlp.experts.routed.w1" "routed_w1" routed_expert_transpose
        "iq2_xxs"
    ∷ typed_entry "ffn_up_exps.weight" "mlp.experts.routed.w3" "routed_w3" routed_expert_transpose
        "iq2_xxs"
    ∷ typed_entry "ffn_down_exps.weight" "mlp.experts.routed.w2" "routed_w2" routed_expert_transpose
        "iq2_xxs"
    ∷ typed_entry "ffn_norm.weight" "post_attention_layernorm.weight" "ffn_norm" direct "f32"
    ∷ []
