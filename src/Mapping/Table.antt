-- ===== src/Mapping/Table.antt =====
-- The table of the tensors of a DeepSeek-V4 GGUF file (loader/mappings/deepseek_v4.py), in the
-- order in which `build_ds4_tensor_mappings` adds them.
use pocket_mo_e.Prelude.{String, List, [], ◌∷◌}
use pocket_mo_e.Prelude.Text.{Text, codes}

pub data Transform : Type 0 where
  direct transpose routed_expert_transpose generated_scale : Transform

-- What one call of `add` or `add_weight` names, without the prefix of its layer.
pub record Row : Type 0 where
  pub source : Text
  pub target : Text
  pub row_transform : Transform
  pub row_role : Text

abbrev pub row : String → String → Transform → String → Row
row source target transform role = record {
  source = codes source;
  target = codes target;
  row_transform = transform;
  row_role = codes role;
}

-- tensors of no layer
abbrev pub global_rows : List Row
global_rows =
    row "token_embd.weight" "embed.weight" transpose "embedding"
    ∷ row "output.weight" "head.weight" transpose "lm_head"
    ∷ row "output_norm.weight" "norm.weight" direct "norm"
    ∷ row "output_hc_fn.weight" "hc_head_fn" transpose "hc_head"
    ∷ row "output_hc_base.weight" "hc_head_base" direct "hc_head"
    ∷ row "output_hc_scale.weight" "hc_head_scale" direct "hc_head"
    ∷ []

-- the head of a layer, up to the weights of its gate
abbrev pub attention_rows : List Row
attention_rows =
    row "attn_sinks.weight" "attn.attn_sink" direct "attn"
    ∷ row "attn_q_a.weight" "attn.wq_a.weight" transpose "attn"
    ∷ row "attn_q_a_norm.weight" "attn.q_norm.weight" direct "attn"
    ∷ row "attn_q_b.weight" "attn.wq_b.weight" transpose "attn"
    ∷ row "attn_kv.weight" "attn.wkv.weight" transpose "attn"
    ∷ row "attn_kv_a_norm.weight" "attn.kv_norm.weight" direct "attn"
    ∷ row "attn_output_a.weight" "attn.wo_a.weight" transpose "attn"
    ∷ row "attn_output_b.weight" "attn.wo_b.weight" transpose "attn"
    ∷ row "attn_norm.weight" "attn_norm.weight" direct "attn_norm"
    ∷ row "ffn_gate_inp.weight" "ffn.gate.weight" transpose "gate"
    ∷ []

-- the gate of a layer that routes by hash
abbrev pub hash_gate_rows : List Row
hash_gate_rows = row "ffn_gate_tid2eid.weight" "ffn.gate.tid2eid" transpose "gate_hash" ∷ []

-- the gate of any other layer
abbrev pub bias_gate_rows : List Row
bias_gate_rows = row "exp_probs_b.bias" "ffn.gate.bias" direct "gate_bias" ∷ []

-- the rest of a layer, after its experts
abbrev pub tail_rows : List Row
tail_rows =
    row "ffn_gate_shexp.weight" "ffn.shared_experts.w1.weight" transpose "shared_w1"
    ∷ row "ffn_down_shexp.weight" "ffn.shared_experts.w2.weight" transpose "shared_w2"
    ∷ row "ffn_up_shexp.weight" "ffn.shared_experts.w3.weight" transpose "shared_w3"
    ∷ row "ffn_norm.weight" "ffn_norm.weight" direct "ffn_norm"
    ∷ row "hc_attn_fn.weight" "hc_attn_fn" transpose "hc"
    ∷ row "hc_attn_base.weight" "hc_attn_base" direct "hc"
    ∷ row "hc_attn_scale.weight" "hc_attn_scale" direct "hc"
    ∷ row "hc_ffn_fn.weight" "hc_ffn_fn" transpose "hc"
    ∷ row "hc_ffn_base.weight" "hc_ffn_base" direct "hc"
    ∷ row "hc_ffn_scale.weight" "hc_ffn_scale" direct "hc"
    ∷ []

-- the compressor of a layer
abbrev pub compressor_rows : List Row
compressor_rows =
    row "attn_compressor_ape.weight" "attn.compressor.ape" transpose "attn_compressor"
    ∷ row "attn_compressor_kv.weight" "attn.compressor.wkv.weight" transpose "attn_compressor"
    ∷ row "attn_compressor_gate.weight" "attn.compressor.wgate.weight" transpose "attn_compressor"
    ∷ row "attn_compressor_norm.weight" "attn.compressor.norm.weight" direct "attn_compressor"
    ∷ []

-- the indexer of a layer
abbrev pub indexer_rows : List Row
indexer_rows =
    row "indexer.attn_q_b.weight" "attn.indexer.wq_b.weight" transpose "indexer"
    ∷ row "indexer.proj.weight" "attn.indexer.weights_proj.weight" transpose "indexer"
    ∷ row "indexer_compressor_ape.weight" "attn.indexer.compressor.ape" transpose
        "indexer_compressor"
    ∷ row "indexer_compressor_kv.weight" "attn.indexer.compressor.wkv.weight" transpose
        "indexer_compressor"
    ∷ row "indexer_compressor_gate.weight" "attn.indexer.compressor.wgate.weight" transpose
        "indexer_compressor"
    ∷ row "indexer_compressor_norm.weight" "attn.indexer.compressor.norm.weight" direct
        "indexer_compressor"
    ∷ []
