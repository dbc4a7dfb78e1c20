-- ===== src/Gguf/Types.antt =====
-- The two type tables of loader/gguf/reader.py, the size of a tensor's payload, and the alignment
-- of a file position.
use pocket_mo_e.Prelude.{
  ℕ, ◌+◌, ◌-◌, ◌*◌, ◌/◌, List, [], ◌∷◌, Option, none, some, Result, ok, err, zero_division,
  value_error, product, nat_eq, String,
}
use pocket_mo_e.Prelude.Dict.{Dict, get}
use pocket_mo_e.Prelude.Int.{ℤ, negsuc, ◌+ℤ◌, ◌*ℤ◌, floor_div}

-- How `_METADATA_TYPES` reads a value of one type id.
pub data Format : Type 0 where
  unsigned signed : ℕ → Format
  boolean : Format
  float : ℕ → Format
  string array : Format

abbrev pub metadata_types : Dict ℕ (String × Format)
metadata_types =
    (0, ("uint8", unsigned 1))
    ∷ (1, ("int8", signed 1))
    ∷ (2, ("uint16", unsigned 2))
    ∷ (3, ("int16", signed 2))
    ∷ (4, ("uint32", unsigned 4))
    ∷ (5, ("int32", signed 4))
    ∷ (6, ("float32", float 4))
    ∷ (7, ("bool", boolean))
    ∷ (8, ("string", string))
    ∷ (9, ("array", array))
    ∷ (10, ("uint64", unsigned 8))
    ∷ (11, ("int64", signed 8))
    ∷ (12, ("float64", float 8))
    ∷ []

or_value_error {ℓ} : {A : Type ℓ} → Option A → Result A
or_value_error none = err value_error
or_value_error (some a) = ok a

-- `_metadata_type`
unfoldable pub metadata_type : ℕ → Result (String × Format)
unfolding or_value_error
metadata_type type_id = or_value_error (get type_id metadata_types)

-- The `size` column: `None` for strings and arrays.
unfoldable pub format_size : Format → Option ℕ
format_size (unsigned w) = some w
format_size (signed w) = some w
format_size boolean = some 1
format_size (float w) = some w
format_size string = none
format_size array = none

pub record BlockType : Type 0 where
  pub name : String
  pub block_elems : ℕ
  pub block_bytes : ℕ

abbrev block : String → ℕ → ℕ → BlockType
block n e b = record { name = n; block_elems = e; block_bytes = b }

abbrev pub ggml_types : Dict ℕ BlockType
ggml_types =
    (0, block "f32" 1 4)
    ∷ (1, block "f16" 1 2)
    ∷ (2, block "q4_0" 32 18)
    ∷ (3, block "q4_1" 32 20)
    ∷ (6, block "q5_0" 32 22)
    ∷ (7, block "q5_1" 32 24)
    ∷ (8, block "q8_0" 32 34)
    ∷ (9, block "q8_1" 32 40)
    ∷ (10, block "q2_k" 256 84)
    ∷ (11, block "q3_k" 256 110)
    ∷ (12, block "q4_k" 256 144)
    ∷ (13, block "q5_k" 256 176)
    ∷ (14, block "q6_k" 256 210)
    ∷ (15, block "q8_k" 256 292)
    ∷ (16, block "iq2_xxs" 256 66)
    ∷ (17, block "iq2_xs" 256 74)
    ∷ (18, block "iq3_xxs" 256 98)
    ∷ (19, block "iq1_s" 256 50)
    ∷ (20, block "iq4_nl" 32 18)
    ∷ (21, block "iq3_s" 256 110)
    ∷ (22, block "iq2_s" 256 82)
    ∷ (23, block "iq4_xs" 256 136)
    ∷ (24, block "i8" 1 1)
    ∷ (25, block "i16" 1 2)
    ∷ (26, block "i32" 1 4)
    ∷ (27, block "i64" 1 8)
    ∷ (28, block "f64" 1 8)
    ∷ (29, block "iq1_m" 256 56)
    ∷ (30, block "bf16" 1 2)
    ∷ []

sized : Option BlockType → List ℕ → Option ℕ
sized none dims = none
sized (some t) dims = some ((product dims + t.block_elems - 1) / t.block_elems * t.block_bytes)

-- `tensor_nbytes`; `none` for an unknown type
unfoldable pub tensor_nbytes : ℕ → List ℕ → Option ℕ
unfolding sized
tensor_nbytes type_id dims = sized (get type_id ggml_types) dims

scaled : Option ℤ → ℤ → Result ℤ
scaled none alignment = err zero_division
scaled (some q) alignment = ok (q *ℤ alignment)

-- `align_up`, over Python's integers
unfoldable pub align_up : ℤ → ℤ → Result ℤ
unfolding scaled
align_up value alignment = scaled (floor_div (value +ℤ alignment +ℤ negsuc 0) alignment) alignment
