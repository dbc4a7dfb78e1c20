-- ===== src/Gguf/Laws/Skips.antt =====
-- The pass that skips metadata ends where the pass that reads it ends.
use pocket_mo_e.Prelude.{
  ℕ, zero, suc, ◌+◌, ◌-◌, ◌≡◌, refl, [], some, Result, ok, length, arith, nat_eq, list_eq, take,
  drop, String,
}
use pocket_mo_e.Prelude.Dict
use pocket_mo_e.Prelude.Dict.{Dict}
use pocket_mo_e.Prelude.Text.{Text}
use pocket_mo_e.Gguf.Stream.{
  Bytes, lift, ◌>>=◌, read, seek, tell, read_exactly, read_struct, read_u32, read_u64,
}
use pocket_mo_e.Gguf.Types.{
  Format, unsigned, signed, boolean, float, string, array, metadata_type, format_size,
}
use pocket_mo_e.Gguf.Reader.{
  Platform, MetaValue, magic, read_string, skip_strings, skip_format, skip_array, read_format,
  read_value, read_metadata,
}
use pocket_mo_e.Gguf.Laws.Parses.{reads-elim}
use pocket_mo_e.Gguf.Writer.Skip.{
  metadata_scalar_sizes, skip_string, skip_string_items, skip_items_of, skip_metadata_value,
  skip_metadata, raw_after_magic, metadata_raw_bytes,
}

-- The two size tables agree, and strings and arrays are the types 8 and 9.
sizes_agree :
    (t : ℕ) {nf : String × Format}
    → metadata_type t ≡ ok nf
    → Dict.get t metadata_scalar_sizes ≡ format_size nf.1
unfolding metadata_type Dict.get format_size
sizes_agree t h = ground arith

string_type : (t : ℕ) {nf : String × Format} → metadata_type t ≡ ok nf → nf.1 ≡ string → t ≡ 8
unfolding metadata_type Dict.get
string_type t h e = ground arith

array_type : (t : ℕ) {nf : String × Format} → metadata_type t ≡ ok nf → nf.1 ≡ array → t ≡ 9
unfolding metadata_type Dict.get
array_type t h e = ground arith

read_struct-end :
    (w : ℕ) (file : Bytes) (at : ℕ) {n end : ℕ} → read_struct w file at ≡ ok (n, end) → end ≡ at + w
unfolding read_struct read_exactly read
read_struct-end w file at h = ground arith

skip_strings-skip_string_items :
    (n : ℕ) (file : Bytes) (at : ℕ) → skip_strings n file at ≡ skip_string_items n file at
unfolding skip_strings skip_string_items skip_string seek
skip_strings-skip_string_items zero file at = refl
skip_strings-skip_string_items (suc n) file at =
    grind (arith, skip_strings-skip_string_items n file)

module _ (p : Platform) (file : Bytes) where
  read_string-skip_string :
      (at : ℕ) {t : Text} {end : ℕ}
      → read_string p file at ≡ ok (t, end)
      → skip_string file at ≡ ok (tt, end)
  unfolding read_string skip_string seek read_exactly read
  read_string-skip_string at h = ground arith

  -- An array that the reader skips is skipped by the other pass too, to the same place.
  skip_array-skip_items_of :
      (item_type length at : ℕ) {end : ℕ}
      → skip_array item_type length file at ≡ ok (tt, end)
      → skip_items_of item_type length file at ≡ ok (tt, end)
  unfolding skip_array skip_format skip_items_of metadata_type Dict.get format_size
  skip_array-skip_items_of item_type length at h =
      ground (arith, skip_strings-skip_string_items length file at)

  -- `_read_value` of an array
  read_array-skip_items_of :
      (at : ℕ) {v : MetaValue} {end : ℕ}
      → read_format p array file at ≡ ok (v, end)
      → (read_u32 >>= λ item_type. read_u64 >>= λ length. skip_items_of item_type length) file at
        ≡ ok (tt, end)
  unfolding read_format
  read_array-skip_items_of at h = reads-elim read_u32 _ h λ item_type at1 e1 h1.
      reads-elim read_u64 _ h1 λ length at2 e2 h2.
        reads-elim (skip_array item_type length) _ h2
          λ _ at3 e3 h3. ground (arith, skip_array-skip_items_of item_type length at2 e3)

  -- a value of a fixed size
  scalar-skip_metadata_value :
      (value_type w at : ℕ) {end : ℕ}
      → Dict.get value_type metadata_scalar_sizes ≡ some w
      → end ≡ at + w
      → skip_metadata_value value_type file at ≡ ok (tt, end)
  unfolding skip_metadata_value Dict.get seek
  scalar-skip_metadata_value value_type w at found e = ground arith

  read_format-skip_metadata_value :
      (value_type at : ℕ) (name : String) (format : Format) {v : MetaValue} {end : ℕ}
      → metadata_type value_type ≡ ok (name, format)
      → read_format p format file at ≡ ok (v, end)
      → skip_metadata_value value_type file at ≡ ok (tt, end)
  unfolding format_size read_format
  read_format-skip_metadata_value value_type at name string typed h =
      rw (string_type value_type typed refl) (
        unfold skip_metadata_value in
        reads-elim (read_string p) _ h λ t at1 e1 h1. ground (arith, read_string-skip_string at e1))
  read_format-skip_metadata_value value_type at name array typed h =
      rw (array_type value_type typed refl)
        (unfold skip_metadata_value in read_array-skip_items_of at h)
  read_format-skip_metadata_value value_type at name (unsigned w) typed h =
      scalar-skip_metadata_value value_type w at (sizes_agree value_type typed)
        (reads-elim (read_struct w) _ h λ n at1 e1 h1. ground (arith, read_struct-end w file at e1))
  read_format-skip_metadata_value value_type at name (signed w) typed h =
      scalar-skip_metadata_value value_type w at (sizes_agree value_type typed)
        (reads-elim (read_struct w) _ h λ n at1 e1 h1. ground (arith, read_struct-end w file at e1))
  read_format-skip_metadata_value value_type at name (float w) typed h =
      scalar-skip_metadata_value value_type w at (sizes_agree value_type typed)
        (reads-elim (read_struct w) _ h λ n at1 e1 h1. ground (arith, read_struct-end w file at e1))
  read_format-skip_metadata_value value_type at name boolean typed h =
      scalar-skip_metadata_value value_type 1 at (sizes_agree value_type typed)
        (reads-elim (read_struct 1) _ h λ n at1 e1 h1. ground (arith, read_struct-end 1 file at e1))

  lift-inv :
      {A : Type 0} (r : Result A) (at : ℕ) {a : A} {mid : ℕ}
      → lift r file at ≡ ok (a, mid)
      → (r ≡ ok a) × (at ≡ mid)
  lift-inv r at h = ground arith

  read_value-skip_metadata_value :
      (value_type at : ℕ) {v : MetaValue} {end : ℕ}
      → read_value p value_type file at ≡ ok (v, end)
      → skip_metadata_value value_type file at ≡ ok (tt, end)
  unfolding read_value
  read_value-skip_metadata_value value_type at h =
      reads-elim (lift (metadata_type value_type)) _ h λ nf mid e h1.
        let (typed, same) = lift-inv (metadata_type value_type) at e in
        read_format-skip_metadata_value value_type at nf.0 nf.1 typed (rw (← same) at h1)

  -- When the metadata can be read, the pass that copies it unread ends at the same place.
  pub read_metadata-skip_metadata :
      (n : ℕ) (metadata : Dict Text MetaValue) (at : ℕ) {found : Dict Text MetaValue} {end : ℕ}
      → read_metadata p n metadata file at ≡ ok (found, end)
      → skip_metadata n file at ≡ ok (tt, end)
  unfolding read_metadata skip_metadata
  read_metadata-skip_metadata zero metadata at h = ground arith
  read_metadata-skip_metadata (suc n) metadata at h =
      reads-elim (read_string p) _ h λ key at1 e1 h1.
        reads-elim read_u32 _ h1 λ value_type at2 e2 h2.
          reads-elim (read_value p value_type) _ h2 λ value at3 e3 h3.
            rw (read_string-skip_string at e1, e2, read_value-skip_metadata_value value_type at2 e3)
              (read_metadata-skip_metadata n (Dict.put key value metadata) at3 h3)

  -- When a file starts with the magic and its metadata, from byte 24 on, can be read, the metadata
  -- that the rewriter copies unread is just the bytes the reader took, and the rewriter stops
  -- where the reader stopped.
  pub metadata_raw_bytes-read_metadata :
      (n : ℕ) {found : Dict Text MetaValue} {end : ℕ}
      → read 4 file 0 ≡ ok (magic, 4)
      → read_metadata p n [] file 24 ≡ ok (found, end)
      → metadata_raw_bytes n file 0 ≡ ok (take (end - 24) (drop 24 file), end)
  unfolding metadata_raw_bytes raw_after_magic seek tell
  metadata_raw_bytes-read_metadata n start h = rw (start, read_metadata-skip_metadata n [] 24 h)
