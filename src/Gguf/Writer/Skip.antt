-- ===== src/Gguf/Writer/Skip.antt =====
-- The pass that only skips metadata, to copy it unread: `_skip_string`, `_skip_metadata_value` and
-- `_metadata_raw_bytes` (cli/make_routed_source_gguf.py).
use pocket_mo_e.Prelude.{
  ℕ, zero, suc, ◌*◌, [], ◌∷◌, Option, none, some, ok, value_error, ◌-◌, take, drop, nat_eq, list_eq,
  ◌==◌, if◌then◌else◌,
}
use pocket_mo_e.Prelude.Dict
use pocket_mo_e.Prelude.Dict.{Dict}
use pocket_mo_e.Gguf.Stream.{
  Bytes, Reader, pure, raise, ◌>>=◌, ◌>>◌, read, seek, tell, read_u32, read_u64,
}
use pocket_mo_e.Gguf.Reader.{magic}

-- `_METADATA_SCALAR_SIZES`
abbrev pub metadata_scalar_sizes : Dict ℕ ℕ
metadata_scalar_sizes =
    (0, 1)
    ∷ (1, 1)
    ∷ (2, 2)
    ∷ (3, 2)
    ∷ (4, 4)
    ∷ (5, 4)
    ∷ (6, 4)
    ∷ (7, 1)
    ∷ (10, 8)
    ∷ (11, 8)
    ∷ (12, 8)
    ∷ []

-- `_skip_string`
unfoldable pub skip_string : Reader (Unit {0})
skip_string = do n ← read_u64; seek n

unfoldable pub skip_string_items : ℕ → Reader (Unit {0})
skip_string_items zero = pure tt
skip_string_items (suc n) = do skip_string; skip_string_items n

-- `f.seek(length * size)`, or the ValueError where the table has no size
seek_sized : Option ℕ → ℕ → Reader (Unit {0})
seek_sized none length = raise value_error
seek_sized (some size) length = seek (length * size)

unfoldable pub skip_items_of : ℕ → ℕ → Reader (Unit {0})
unfolding seek_sized
skip_items_of item_type length =
    if item_type == 8
    then skip_string_items length
    else if item_type == 9
    then raise value_error
    else seek_sized (Dict.get item_type metadata_scalar_sizes) length

-- `_skip_metadata_value`
unfoldable pub skip_metadata_value : ℕ → Reader (Unit {0})
unfolding seek_sized
skip_metadata_value value_type =
    if value_type == 8
    then skip_string
    else if value_type == 9
    then (do item_type ← read_u32; length ← read_u64; skip_items_of item_type length)
    else seek_sized (Dict.get value_type metadata_scalar_sizes) 1

-- the loop of `_metadata_raw_bytes`
unfoldable pub skip_metadata : ℕ → Reader (Unit {0})
skip_metadata zero = pure tt
skip_metadata (suc n) = do
  skip_string
  value_type ← read_u32
  skip_metadata_value value_type
  skip_metadata n

-- `f.read(meta_end - meta_start)` after the seek back
between : ℕ → ℕ → Reader Bytes
between start end file pos = ok (take (end - start) (drop start file), pos)

unfoldable pub raw_after_magic : ℕ → Reader Bytes
unfolding between
raw_after_magic metadata_count = do
  seek 20
  meta_start ← tell
  skip_metadata metadata_count
  meta_end ← tell
  between meta_start meta_end

-- `_metadata_raw_bytes`
unfoldable pub metadata_raw_bytes : ℕ → Reader Bytes
metadata_raw_bytes metadata_count = do
  found ← read 4
  if found == magic then raw_after_magic metadata_count else raise value_error
