-- ===== src/Tests/Files.antt =====
-- The theorems on GGUF files and on the shards of tensors at concrete inputs.
use pocket_mo_e.Prelude.{
  ℕ, ◌-◌, ◌%◌, ◌≡◌, refl, List, [], ◌∷◌, ◌++◌, map, none, some, false, ok, err, ◌>>=◌, value_error,
  eof_error, arith, length, take, drop, replicate, list_eq, nat_eq,
}
use pocket_mo_e.Prelude.Dict
use pocket_mo_e.Prelude.Dict.{Dict}
use pocket_mo_e.Prelude.Int.{ℤ, pos}
use pocket_mo_e.Prelude.Text.{Text, codes, contains, starts_with}
use pocket_mo_e.Gguf.Stream.{Bytes, read, read_exactly, read_struct, unpack, pack}
use pocket_mo_e.Gguf.Types.{metadata_type}
use pocket_mo_e.Gguf.Reader.{
  Platform, TensorRecord, number, magic, read_string, read_format, read_value, read_metadata,
  read_tensor_records,
}
use pocket_mo_e.Gguf.Writer.{
  struct_pack, subscript, write_string, write_dimensions, write_tensor_record, write_tensor_records,
  pad_file, copy_bytes,
}
use pocket_mo_e.Gguf.Writer.Skip.{metadata_raw_bytes}
use pocket_mo_e.Gguf.Laws.Parses.{Parses}
use pocket_mo_e.Gguf.Laws.Records.{retyped, write_tensor_records-Parses}
use pocket_mo_e.Gguf.Laws.Skips.{metadata_raw_bytes-read_metadata}
use pocket_mo_e.Gguf.Laws.Layout.{aligned, length-pad_file}
use pocket_mo_e.Gguf.Laws.Copy.{copy_bytes-take, copy_bytes-short}
use pocket_mo_e.Partition.Rules.{
  Tensors, Module, column_parallel_linear, is_routed_name, shard_tensor_for_rank,
  shard_shape_for_rank, partition_rule_kind,
}
use pocket_mo_e.Partition.Laws.Shards.{cut, shard_tensor-shard_shape}

abbrev latin : Platform
latin = record { decode = λ b. b; truncate = λ w n. err value_error }

abbrev plain_tensor : TensorRecord
plain_tensor = record { name = codes "w"; dimensions = 2 ∷ []; type_id = 0; offset = 0 }

abbrev new_types : Dict Text ℕ
new_types = (codes "w", 1) ∷ []

abbrev new_offsets : Dict Text ℤ
new_offsets = (codes "w", pos 32) ∷ []

abbrev written : Bytes
written =
    1 ∷ 0 ∷ 0 ∷ 0 ∷ 0 ∷ 0 ∷ 0 ∷ 0 ∷ 119 ∷ 1 ∷ 0 ∷ 0 ∷ 0 ∷ 2 ∷ 0 ∷ 0 ∷ 0 ∷ 0 ∷ 0 ∷ 0 ∷ 0 ∷ 1 ∷ 0 ∷ 0
    ∷ 0 ∷ 32 ∷ 0 ∷ 0 ∷ 0 ∷ 0 ∷ 0 ∷ 0 ∷ 0 ∷ []

one_written : write_tensor_records (λ t. t) new_types new_offsets (plain_tensor ∷ []) ≡ ok written
unfolding write_tensor_records write_tensor_record write_string write_dimensions struct_pack
    subscript pack Dict.get
one_written = refl

write_tensor_records-Parses_example :
    Parses
      (read_tensor_records latin 1)
      written
      (map (retyped new_types new_offsets) (plain_tensor ∷ []))
write_tensor_records-Parses_example =
    write_tensor_records-Parses latin (λ t. t) (λ t. refl) new_types new_offsets (plain_tensor ∷ [])
      one_written

abbrev header : Bytes
header =
    magic
    ++ (replicate 20 0 ++ (1 ∷ 0 ∷ 0 ∷ 0 ∷ 0 ∷ 0 ∷ 0 ∷ 0 ∷ 97 ∷ 4 ∷ 0 ∷ 0 ∷ 0 ∷ 5 ∷ 0 ∷ 0 ∷ 0 ∷ []))

header-magic : read 4 header 0 ≡ ok (magic, 4)
unfolding read
header-magic = refl

header_metadata : read_metadata latin 1 [] header 24 ≡ ok ((codes "a", number (pos 5)) ∷ [], 41)
unfolding read_metadata read_string read_format read_value read_exactly read_struct read unpack
    metadata_type Dict.put Dict.get
header_metadata = refl

metadata_raw_bytes-read_metadata_example :
    metadata_raw_bytes 1 header 0 ≡ ok (take (41 - 24) (drop 24 header), 41)
metadata_raw_bytes-read_metadata_example =
    metadata_raw_bytes-read_metadata latin header 1 header-magic header_metadata

length-pad_file_example :
    (padded : Bytes) × (pad_file (pos 32) (1 ∷ 2 ∷ []) ≡ ok padded)
    × (take 2 padded ≡ 1 ∷ 2 ∷ [])
    × (length padded ≡ aligned 2 32)
    × (length padded % 32 ≡ 0)
length-pad_file_example = length-pad_file 31 (1 ∷ 2 ∷ [])

copy_bytes-take_example :
    copy_bytes 4 (1 ∷ 2 ∷ 3 ∷ 4 ∷ []) (9 ∷ []) 1 3 2
    ≡ some (ok ((9 ∷ []) ++ take 3 (drop 1 (1 ∷ 2 ∷ 3 ∷ 4 ∷ []))))
copy_bytes-take_example =
    copy_bytes-take 4 (1 ∷ 2 ∷ 3 ∷ 4 ∷ []) (9 ∷ []) 1 3 2 (omega arith) (omega arith) (omega arith)

copy_bytes-short_example : copy_bytes 4 (1 ∷ 2 ∷ 3 ∷ []) (9 ∷ []) 1 3 2 ≡ some (err eof_error)
copy_bytes-short_example =
    copy_bytes-short 4 (1 ∷ 2 ∷ 3 ∷ []) (9 ∷ []) 1 3 2 (omega arith) (omega arith) (omega arith)
      (omega arith)

-- tensors as their shapes
abbrev shapes : Tensors
shapes = record { Tensor = List ℕ; sizes = λ t. t; narrow = λ dim start size t. size ∷ [] }

query_is_no_expert : is_routed_name (codes "layers.0.attn.wq_b.weight") ≡ false
unfolding is_routed_name contains starts_with
query_is_no_expert = refl

abbrev query_module : Module
query_module = record {
  class = column_parallel_linear;
  experts_start_idx = none;
  experts_end_idx = none;
  n_local_experts = none;
  replicated_c4_indexer = false;
}

shard_tensor-shard_shape_example :
    shard_tensor_for_rank shapes (codes "layers.0.attn.wq_b.weight") (8 ∷ []) query_module 4 1 ≡ (do
      s ←
          shard_shape_for_rank
            (8 ∷ [])
            (partition_rule_kind (codes "layers.0.attn.wq_b.weight") query_module)
            4
            1
      ok (some (cut shapes (8 ∷ []) s)))
shard_tensor-shard_shape_example =
    shard_tensor-shard_shape shapes (codes "layers.0.attn.wq_b.weight") (8 ∷ []) query_module 4 1
      query_is_no_expert
