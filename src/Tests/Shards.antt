-- ===== src/Tests/Shards.antt =====
-- The theorems on files in shards at concrete inputs.
use pocket_mo_e.Prelude.{
  List, [], ◌∷◌, map, some, true, Result, ok, ◌≡◌, refl, length, range_from, list_eq, nat_eq,
}
use pocket_mo_e.Prelude.Dict
use pocket_mo_e.Prelude.Int.{pos}
use pocket_mo_e.Prelude.Text.{Text, codes, all_digits, nat_text, one_of}
use pocket_mo_e.Gguf.Reader.{GgufFile, GgufTensorInfo}
use pocket_mo_e.Gguf.Bundle.{
  Bundle, Shard, read_gguf_bundle, bundle_of, read_shards, add_tensors, has_name, find_shard,
  most_metadata, primary_shard_index,
}
use pocket_mo_e.Gguf.Resolve.{
  file, resolve_gguf_bundle, has_gguf_suffix, match_shard_name, all_present, expected_shards,
}
use pocket_mo_e.Gguf.Laws.Shards.{all_refs, distinct_names, read_gguf_bundle-tensors}

abbrev one_tensor : Text → GgufTensorInfo
one_tensor name = record {
  record_of = record { name = name; dimensions = 32 ∷ []; type_id = 0; offset = 0 };
  absolute_offset = pos 64;
  nbytes = some 128;
}

abbrev shard_file : Text → GgufFile
shard_file path = record {
  path = path;
  version = 3;
  tensor_count = 1;
  metadata_count = 0;
  metadata = [];
  tensors = one_tensor path ∷ [];
  data_start = pos 64;
  alignment = pos 32;
  size = 192;
}

abbrev opened : Text → Result GgufFile
opened path = ok (shard_file path)

abbrev two_paths : List Text
two_paths = codes "m-00001-of-00002.gguf" ∷ codes "m-00002-of-00002.gguf" ∷ []

abbrev two_shards : List Shard
two_shards =
    record {
      index = 0;
      path = codes "m-00001-of-00002.gguf";
      file = shard_file (codes "m-00001-of-00002.gguf");
    }
    ∷ record {
      index = 1;
      path = codes "m-00002-of-00002.gguf";
      file = shard_file (codes "m-00002-of-00002.gguf");
    }
    ∷ []

abbrev two_bundle : Bundle
two_bundle = record {
  shards = two_shards;
  primary_index = 0;
  metadata = [];
  tensors =
      record {
        info = one_tensor (codes "m-00001-of-00002.gguf");
        shard_index = 0;
        shard_path = codes "m-00001-of-00002.gguf";
      }
      ∷ record {
        info = one_tensor (codes "m-00002-of-00002.gguf");
        shard_index = 1;
        shard_path = codes "m-00002-of-00002.gguf";
      }
      ∷ [];
  size = 384;
}

two_read : read_gguf_bundle opened two_paths ≡ ok two_bundle
unfolding read_gguf_bundle bundle_of read_shards add_tensors has_name find_shard most_metadata
    primary_shard_index Dict.get Dict.has
two_read = refl

read_gguf_bundle-tensors_example :
    (two_bundle.tensors ≡ all_refs two_bundle.shards)
    × (distinct_names [] two_bundle.tensors ≡ true)
    × (map (λ s. s.path) two_bundle.shards ≡ two_paths)
    × (map (λ s. s.index) two_bundle.shards ≡ range_from 0 (length two_paths))
read_gguf_bundle-tensors_example = read_gguf_bundle-tensors opened two_paths two_bundle two_read

-- From the second shard, both are found.
second_of_two : resolve_gguf_bundle (file (codes "m-00002-of-00002.gguf") two_paths) ≡ ok two_paths
unfolding resolve_gguf_bundle has_gguf_suffix match_shard_name all_present expected_shards
    all_digits nat_text one_of
second_of_two = refl
