-- ===== src/Gguf/Reader.antt =====
-- `GGUFReader`, `_read_string` and the records that a header is read into (loader/gguf/reader.py).
-- A float stays the number of its bits; the decoder of UTF-8 text (`errors="replace"`) and the
-- truncation of a float to an integer are parameters.
use pocket_mo_e.Prelude.{
  ℕ, zero, suc, ◌-◌, ◌*◌, ◌^◌, List, [], ◌∷◌, map, Option, none, some, Bool, true, false, not,
  Result, ok, err, value_error, type_error, length, list_eq, nat_eq, ◌==◌, ltb, if◌then◌else◌,
  String,
}
use pocket_mo_e.Prelude.Dict
use pocket_mo_e.Prelude.Dict.{Dict}
use pocket_mo_e.Prelude.Int.{ℤ, pos, negsuc, ◌+ℤ◌}
use pocket_mo_e.Prelude.Text.{Text, codes, parse_int}
use pocket_mo_e.Gguf.Stream.{
  Bytes, Reader, pure, raise, lift, ◌>>=◌, ◌>>◌, read, seek, tell, read_exactly, read_struct,
  read_u32, read_u64,
}
use pocket_mo_e.Gguf.Types.{
  Format, unsigned, signed, boolean, float, string, array, metadata_type, format_size,
  tensor_nbytes, align_up,
}

-- What `read` returns a metadata entry as.
pub data MetaValue : Type 0 where
  number : ℤ → MetaValue
  flag : Bool → MetaValue
  float_bits : ℕ → ℕ → MetaValue
  text : Text → MetaValue
  array_summary : ℕ → String → ℕ → MetaValue

-- one entry of `_read_tensor_records`
pub record TensorRecord : Type 0 where
  pub name : Text
  pub dimensions : List ℕ
  pub type_id : ℕ
  pub offset : ℕ

pub record GgufTensorInfo : Type 0 where
  pub record_of : TensorRecord
  pub open record_of use *
  pub absolute_offset : ℤ
  pub nbytes : Option ℕ

pub record GgufFile : Type 0 where
  pub path : Text
  pub version : ℕ
  pub tensor_count : ℕ
  pub metadata_count : ℕ
  pub metadata : Dict Text MetaValue
  pub tensors : List GgufTensorInfo
  pub data_start : ℤ
  pub alignment : ℤ
  pub size : ℕ

-- What the reader takes from Python: `data.decode("utf-8", errors="replace")`, and `int` of a float
-- of so many bytes, which raises at an infinity.
pub record Platform : Type 0 where
  pub decode : Bytes → Text
  pub truncate : ℕ → ℕ → Result ℤ

-- `GGUF_MAGIC`
abbrev pub magic : Bytes
magic = codes "GGUF"

-- two's complement over `w` bytes
to_signed : ℕ → ℕ → ℤ
to_signed w n = if ltb n (2 ^ (8 * w - 1)) then pos n else negsuc (2 ^ (8 * w) - 1 - n)

-- the loop of `_skip_array` over strings
unfoldable pub skip_strings : ℕ → Reader (Unit {0})
skip_strings zero = pure tt
skip_strings (suc n) = do len ← read_u64; seek len; skip_strings n

skip_items : Option ℕ → ℕ → Reader (Unit {0})
skip_items none length = raise value_error
skip_items (some size) length = seek (length * size)

-- `_skip_array`, after the lookup of the item type
unfoldable pub skip_format : Format → ℕ → Reader (Unit {0})
unfolding skip_items
skip_format string length = skip_strings length
skip_format array length = raise value_error
skip_format (unsigned w) length = skip_items (format_size (unsigned w)) length
skip_format (signed w) length = skip_items (format_size (signed w)) length
skip_format boolean length = skip_items (format_size boolean) length
skip_format (float w) length = skip_items (format_size (float w)) length

unfoldable pub skip_array : ℕ → ℕ → Reader (Unit {0})
skip_array item_type length = do
  (_, format) ← lift (metadata_type item_type)
  skip_format format length

module _ (p : Platform) where
  -- `_read_string`
  unfoldable pub read_string : Reader Text
  read_string = do n ← read_u64; found ← read_exactly n; pure (p.decode found)

  -- `_read_value`, after the lookup of the type
  unfoldable pub read_format : Format → Reader MetaValue
  unfolding to_signed
  read_format string = do t ← read_string; pure (text t)
  read_format array = do
    item_type ← read_u32
    length ← read_u64
    skip_array item_type length
    (item_name, _) ← lift (metadata_type item_type)
    pure (array_summary item_type item_name length)
  read_format (unsigned w) = do n ← read_struct w; pure (number (pos n))
  read_format (signed w) = do n ← read_struct w; pure (number (to_signed w n))
  read_format boolean = do n ← read_struct 1; pure (flag (not (n == 0)))
  read_format (float w) = do n ← read_struct w; pure (float_bits w n)

  unfoldable pub read_value : ℕ → Reader MetaValue
  read_value value_type = do (_, format) ← lift (metadata_type value_type); read_format format

  -- `_read_metadata`: a key that comes again has its last value
  unfoldable pub read_metadata : ℕ → Dict Text MetaValue → Reader (Dict Text MetaValue)
  read_metadata zero metadata = pure metadata
  read_metadata (suc n) metadata = do
    key ← read_string
    value_type ← read_u32
    value ← read_value value_type
    read_metadata n (Dict.put key value metadata)

  unfoldable pub read_dimensions : ℕ → Reader (List ℕ)
  read_dimensions zero = pure []
  read_dimensions (suc n) = do dim ← read_u64; dims ← read_dimensions n; pure (dim ∷ dims)

  unfoldable pub read_tensor_record : Reader TensorRecord
  read_tensor_record = do
    name ← read_string
    n_dims ← read_u32
    dimensions ← read_dimensions n_dims
    type_id ← read_u32
    offset ← read_u64
    pure (record { name = name; dimensions = dimensions; type_id = type_id; offset = offset })

  -- `_read_tensor_records`
  unfoldable pub read_tensor_records : ℕ → Reader (List TensorRecord)
  read_tensor_records zero = pure []
  read_tensor_records (suc n) = do t ← read_tensor_record; ts ← read_tensor_records n; pure (t ∷ ts)

  int_of_text : Option ℤ → Result ℤ
  int_of_text none = err value_error
  int_of_text (some n) = ok n

  -- `int(value)` of a metadata value
  unfoldable pub int_of : MetaValue → Result ℤ
  unfolding int_of_text
  int_of (number n) = ok n
  int_of (flag true) = ok (pos 1)
  int_of (flag false) = ok (pos 0)
  int_of (float_bits w n) = p.truncate w n
  int_of (text t) = int_of_text (parse_int t)
  int_of (array_summary _ _ _) = err type_error

  int_or : Option MetaValue → ℤ → Result ℤ
  int_or none default = ok default
  int_or (some v) default = int_of v

  unfoldable pub alignment_of : Dict Text MetaValue → Result ℤ
  unfolding int_or
  alignment_of metadata = int_or (Dict.get (codes "general.alignment") metadata) (pos 32)

  unfoldable pub tensor_info : ℤ → TensorRecord → GgufTensorInfo
  tensor_info data_start t = record {
    record_of = t;
    absolute_offset = data_start +ℤ pos t.offset;
    nbytes = tensor_nbytes t.type_id t.dimensions;
  }

  -- the body of `read` after the magic has been compared
  unfoldable pub read_header : Text → Reader GgufFile
  read_header path file =
      (do
        version ← read_u32
        tensor_count ← read_u64
        metadata_count ← read_u64
        metadata ← read_metadata metadata_count []
        records ← read_tensor_records tensor_count
        alignment ← lift (alignment_of metadata)
        here ← tell
        data_start ← lift (align_up (pos here) alignment)
        pure (record {
          path = path;
          version = version;
          tensor_count = tensor_count;
          metadata_count = metadata_count;
          metadata = metadata;
          tensors = map (tensor_info data_start) records;
          data_start = data_start;
          alignment = alignment;
          size = length file;
        }))
        file

  -- `GGUFReader.read`
  unfoldable pub read_gguf : Text → Reader GgufFile
  read_gguf path = do found ← read 4; if found == magic then read_header path else raise value_error
