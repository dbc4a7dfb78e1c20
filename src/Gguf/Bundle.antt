-- ===== src/Gguf/Bundle.antt =====
-- A GGUF file in shards (loader/gguf/bundle.py): which shards a path stands for, and the index of
-- their tensors. The file system and the reading of a shard are parameters.
use pocket_mo_e.Prelude.{
  ℕ, suc, ◌*◌, ◌-◌, ◌^◌, ◌||◌, sum, List, [], ◌∷◌, ◌++◌, map, get_elem?, Option, none, some, Bool,
  false, not, ◌&&◌, Result, ok, err, value_error, require, ◌>>=◌, ◌>>◌, ltb, list_eq, nat_eq, ◌==◌,
  if◌then◌else◌,
}
use pocket_mo_e.Prelude.Dict
use pocket_mo_e.Prelude.Dict.{Dict}
use pocket_mo_e.Prelude.Int.{pos, leb_ℤ}
use pocket_mo_e.Prelude.Text.{Text, codes}
use pocket_mo_e.Gguf.Reader.{
  GgufTensorInfo, GgufFile, MetaValue, number, flag, float_bits, text, array_summary,
}

-- a tensor with the shard that holds it
pub record TensorRef : Type 0 where
  pub info : GgufTensorInfo
  pub shard_index : ℕ
  pub shard_path : Text

pub record Shard : Type 0 where
  pub index : ℕ
  pub path : Text
  pub file : GgufFile

pub record Bundle : Type 0 where
  pub shards : List Shard
  pub primary_index : ℕ
  pub metadata : Dict Text MetaValue
  pub tensors : List TensorRef
  pub size : ℕ

-- the references to the tensors of one shard
unfoldable pub tensor_refs : ℕ → Text → List GgufTensorInfo → List TensorRef
tensor_refs index path [] = []
tensor_refs index path (t ∷ ts) =
    record { info = t; shard_index = index; shard_path = path } ∷ tensor_refs index path ts

unfoldable pub has_name : Text → List TensorRef → Bool
has_name n [] = false
has_name n (r ∷ rs) = r.info.name == n || has_name n rs

-- The loop over the tensors of a shard. The names in `seen` are those of the references so far.
unfoldable pub add_tensors :
    ℕ → Text → List GgufTensorInfo → List TensorRef → Result (List TensorRef)
add_tensors index path [] refs = ok refs
add_tensors index path (t ∷ ts) refs = do
  require (not (has_name t.name refs)) value_error
  add_tensors index path ts
      (refs ++ record { info = t; shard_index = index; shard_path = path } ∷ [])

-- whether `metadata.get("split.no") == 0`: of Python's values False and 0.0 are equal to 0 too
is_zero : MetaValue → Bool
is_zero (number i) = leb_ℤ i (pos 0) && leb_ℤ (pos 0) i
is_zero (flag b) = not b
is_zero (float_bits size bits) = bits == 0 || bits == 2 ^ (8 * size - 1)
is_zero (text t) = false
is_zero (array_summary kind name n) = false

is_first : Shard → Bool
unfolding is_zero
is_first s = elim (Dict.get (codes "split.no") s.file.metadata) [
  | none ↦ false
  | some v ↦ is_zero v
]

has_architecture : Shard → Bool
has_architecture s = Dict.has (codes "general.architecture") s.file.metadata

-- the index of the first shard that passes a test
unfoldable pub find_shard : (Shard → Bool) → List Shard → Option ℕ
find_shard p [] = none
find_shard p (s ∷ ss) =
    let rest = find_shard p ss in
    if p s then some 0 else elim rest [ none ↦ none | some i ↦ some (suc i) ]

-- the index of the first shard with the most metadata, from index `i`; `best` is the one so far
unfoldable pub most_metadata : ℕ → List Shard → (best count : ℕ) → ℕ
most_metadata i [] best count = best
most_metadata i (s ∷ ss) best count =
    let later = most_metadata (suc i) ss i s.file.metadata_count in
    let same = most_metadata (suc i) ss best count in
    if ltb count s.file.metadata_count then later else same

-- `_primary_shard_index`, for one shard or more
unfoldable pub primary_shard_index : List Shard → ℕ
unfolding is_first has_architecture
primary_shard_index ss = elim (find_shard is_first ss) [
  | some i ↦ i
  | none ↦ elim (find_shard has_architecture ss) [ some i ↦ i | none ↦ most_metadata 0 ss 0 0 ]
]

-- `shards[i].file.metadata`, for the index of a shard
metadata_at : ℕ → List Shard → Dict Text MetaValue
metadata_at i ss = elim (get_elem? ss i) [ none ↦ [] | some s ↦ s.file.metadata ]

bundle_size : List Shard → ℕ
bundle_size ss = sum (map (λ s. s.file.size) ss)

module _ (read : Text → Result GgufFile) where
  -- the loop of `read_gguf_bundle` from the shard `index` on
  unfoldable pub read_shards : ℕ → List Text → List TensorRef → Result (List Shard × List TensorRef)
  read_shards index [] refs = ok ([], refs)
  read_shards index (path ∷ paths) refs = do
    file ← read path
    refs' ← add_tensors index path file.tensors refs
    rest ← read_shards (suc index) paths refs'
    ok (record { index = index; path = path; file = file } ∷ rest.0, rest.1)

  unfoldable pub bundle_of : List Shard × List TensorRef → Result Bundle
  unfolding bundle_size metadata_at
  bundle_of ([], refs) = err value_error
  bundle_of (s ∷ ss, refs) = ok (record {
    shards = s ∷ ss;
    primary_index = primary_shard_index (s ∷ ss);
    metadata = metadata_at (primary_shard_index (s ∷ ss)) (s ∷ ss);
    tensors = refs;
    size = bundle_size (s ∷ ss);
  })

  -- `read_gguf_bundle`, after the paths of the shards are resolved
  unfoldable pub read_gguf_bundle : List Text → Result Bundle
  read_gguf_bundle paths = read_shards 0 paths [] >>= bundle_of
