-- ===== src/Gguf/Writer.antt =====
-- The writer of a rewritten GGUF file (cli/make_routed_source_gguf.py): strings, tensor records,
-- padding, and the copy of a payload in chunks. What a function writes is appended to the bytes
-- that the output holds. The encoder of UTF-8 text is a parameter.
pub mod Plan
pub mod Skip
use pocket_mo_e.Prelude.{
  ℕ, zero, suc, ◌+◌, ◌-◌, ◌^◌, List, [], ◌∷◌, ◌++◌, Option, none, some, Result, ok, err, ◌>>=◌,
  ◌>>◌, struct_error, key_error, eof_error, length, take, drop, replicate, min, list_eq, nat_eq,
  ◌==◌, ltb, if◌then◌else◌,
}
use pocket_mo_e.Prelude.Dict
use pocket_mo_e.Prelude.Dict.{Dict}
use pocket_mo_e.Prelude.Int.{ℤ, pos, negsuc, pos_part, ltb_ℤ}
use pocket_mo_e.Prelude.Text.{Text}
use pocket_mo_e.Gguf.Stream.{Bytes, pack}
use pocket_mo_e.Gguf.Types.{align_up}
use pocket_mo_e.Gguf.Reader.{TensorRecord}

-- `struct.pack` of an unsigned format of `w` bytes
unfoldable pub struct_pack : ℕ → ℤ → Result Bytes
struct_pack w (pos n) = if ltb n (256 ^ w) then ok (pack w n) else err struct_error
struct_pack w (negsuc n) = err struct_error

or_key_error {ℓ} : {A : Type ℓ} → Option A → Result A
or_key_error none = err key_error
or_key_error (some a) = ok a

-- `d[k]`
unfoldable pub subscript {ℓ} : {V : Type ℓ} → Text → Dict Text V → Result V
unfolding or_key_error
subscript k d = or_key_error (Dict.get k d)

module _ (encode : Text → Bytes) where
  -- `_write_string`
  unfoldable pub write_string : Text → Result Bytes
  write_string value = do
    let found = encode value
    size ← struct_pack 8 (pos (length found))
    ok (size ++ found)

  unfoldable pub write_dimensions : List ℕ → Result Bytes
  write_dimensions [] = ok []
  write_dimensions (dim ∷ dims) = do
    first ← struct_pack 8 (pos dim)
    others ← write_dimensions dims
    ok (first ++ others)

  unfoldable pub write_tensor_record : Dict Text ℕ → Dict Text ℤ → TensorRecord → Result Bytes
  write_tensor_record type_ids offsets t = do
    name ← write_string t.name
    n_dims ← struct_pack 4 (pos (length t.dimensions))
    dimensions ← write_dimensions t.dimensions
    type_id ← subscript t.name type_ids
    packed_type ← struct_pack 4 (pos type_id)
    offset ← subscript t.name offsets
    packed_offset ← struct_pack 8 offset
    ok (name ++ (n_dims ++ (dimensions ++ (packed_type ++ packed_offset))))

  -- `_write_tensor_records`
  unfoldable pub write_tensor_records : Dict Text ℕ → Dict Text ℤ → List TensorRecord → Result Bytes
  write_tensor_records type_ids offsets [] = ok []
  write_tensor_records type_ids offsets (t ∷ ts) = do
    first ← write_tensor_record type_ids offsets t
    others ← write_tensor_records type_ids offsets ts
    ok (first ++ others)

-- `_pad_file`: the output after it
unfoldable pub pad_file : ℤ → Bytes → Result Bytes
pad_file alignment out = do
  padded ← align_up (pos (length out)) alignment
  ok (
      if ltb_ℤ (pos (length out)) padded
      then out ++ replicate (pos_part padded - length out) 0
      else out)

-- `_copy_bytes`, with fuel for its `while`; `none` means that the fuel ran out. One `os.pread` returns
-- all that is asked for and there: an operating system that returns less at once, as Linux does past
-- some 2 ^ 31 bytes, is left out.
unfoldable pub copy_bytes : ℕ → Bytes → Bytes → ℕ → ℕ → ℕ → Option (Result Bytes)
copy_bytes zero src out offset remaining chunk = none
copy_bytes (suc fuel) src out offset remaining chunk =
    let size = min remaining chunk in
    let found = take size (drop offset src) in
    let rest = copy_bytes fuel src (out ++ found) (offset + size) (remaining - size) chunk in
    if remaining == 0
    then some (ok out)
    else if length found == size
    then rest
    else some (err eof_error)
