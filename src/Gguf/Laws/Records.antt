-- ===== src/Gguf/Laws/Records.antt =====
-- The reader takes back what the writer of tensor records wrote.
use pocket_mo_e.Prelude.{
  ℕ, ◌^◌, ◌<◌, ◌≡◌, List, [], ◌∷◌, ◌++◌, map, some, ok, >>=-eq-ok, >>=-elim, ok-injective, subst,
  length, arith, list_eq, nat_eq,
}
use mathlib.Core.List.{append-nil}
use mathlib.Core.Option
use pocket_mo_e.Prelude.Dict
use pocket_mo_e.Prelude.Dict.{Dict}
use pocket_mo_e.Prelude.Int.{ℤ, pos, negsuc, pos_part}
use pocket_mo_e.Prelude.Text.{Text}
use pocket_mo_e.Gguf.Stream
use pocket_mo_e.Gguf.Stream.{Bytes, Reader, pure, pack, read_struct, read_exactly}
use pocket_mo_e.Gguf.Reader.{
  Platform, TensorRecord, read_string, read_dimensions, read_tensor_record, read_tensor_records,
}
use pocket_mo_e.Gguf.Writer.{
  struct_pack, subscript, write_string, write_dimensions, write_tensor_record, write_tensor_records,
}
use pocket_mo_e.Gguf.Laws.Parses.{
  Parses, Parses-pure, Parses-bind, read_exactly-Parses, read_struct-Parses,
}

-- A number that was packed was in range.
struct_pack-inv :
    (w n : ℕ) {bs : Bytes} → struct_pack w (pos n) ≡ ok bs → (n < 256 ^ w) × (pack w n ≡ bs)
unfolding struct_pack
struct_pack-inv w n e = ground arith

pub struct_pack-Parses :
    (w n : ℕ) {bs : Bytes} → struct_pack w (pos n) ≡ ok bs → Parses (read_struct w) bs n
struct_pack-Parses w n e =
    let (fits, same) = struct_pack-inv w n e in rw same at (read_struct-Parses w n fits)

struct_pack_ℤ-Parses :
    (w : ℕ) (z : ℤ) {bs : Bytes} → struct_pack w z ≡ ok bs → Parses (read_struct w) bs (pos_part z)
struct_pack_ℤ-Parses w (pos n) e = struct_pack-Parses w n e
struct_pack_ℤ-Parses w (negsuc n) e = absurd (unfold struct_pack in cc)

-- A reader that returns at once adds no bytes.
Parses-return {ℓ κ} :
    {A : Type ℓ} {B : Type κ} (r : Reader A) (f : A → B) {bs : Bytes} {a : A}
    → Parses r bs a
    → Parses (Stream.◌>>=◌ r (λ x. pure (f x))) bs (f a)
Parses-return r f {bs} {a} h =
    rw (append-nil bs) at (Parses-bind r (λ x. pure (f x)) h (Parses-pure (f a)))

-- The tensor as its new record states it.
abbrev pub retyped : Dict Text ℕ → Dict Text ℤ → TensorRecord → TensorRecord
retyped type_ids offsets t = record t {
  type_id = Option.get_or (Dict.get t.name type_ids) 0;
  offset = pos_part (Option.get_or (Dict.get t.name offsets) (pos 0));
}

module _ (p : Platform) (encode : Text → Bytes)
    (decode-encode : (t : Text) → p.decode (encode t) ≡ t) where
  write_string-Parses :
      (t : Text) {bs : Bytes} → write_string encode t ≡ ok bs → Parses (read_string p) bs t
  unfolding write_string read_string
  write_string-Parses t h =
      let (size, packed, e) =
        >>=-eq-ok (struct_pack 8 (pos (length (encode t)))) (λ s. ok (s ++ encode t)) h in
      rw (ok-injective e) at (
        Parses-bind (read_struct 8)
          (λ n. Stream.◌>>=◌ (read_exactly n) (λ found. pure (p.decode found)))
          (struct_pack-Parses 8 _ packed)
          (rw (decode-encode t) at (
            Parses-return (read_exactly (length (encode t))) p.decode
              (read_exactly-Parses (encode t)))))

  write_dimensions-Parses :
      (dims : List ℕ) {bs : Bytes}
      → write_dimensions encode dims ≡ ok bs
      → Parses (read_dimensions p (length dims)) bs dims
  unfolding write_dimensions read_dimensions
  write_dimensions-Parses [] h =
      subst (λ b. Parses {A = List ℕ} (pure []) b []) (ok-injective h) (Parses-pure [])
  write_dimensions-Parses (dim ∷ dims) h = >>=-elim (struct_pack 8 (pos dim)) _ h λ first p1 h1.
      >>=-elim (write_dimensions encode dims) _ h1 λ others p2 h2.
        subst (λ b. Parses (read_dimensions p (length (dim ∷ dims))) b (dim ∷ dims))
          (ok-injective h2)
          (Parses-bind (read_struct 8) _ (struct_pack-Parses 8 dim p1) (
            Parses-return (read_dimensions p (length dims)) (λ ds. dim ∷ ds)
              (write_dimensions-Parses dims p2)))

  subscript-inv :
      {V : Type 0} (k : Text) (d : Dict Text V) {v : V}
      → subscript k d ≡ ok v
      → Dict.get k d ≡ some v
  unfolding subscript
  subscript-inv k d h = ground arith

  write_tensor_record-Parses :
      (type_ids : Dict Text ℕ) (offsets : Dict Text ℤ) (t : TensorRecord) {bs : Bytes}
      → write_tensor_record encode type_ids offsets t ≡ ok bs
      → Parses (read_tensor_record p) bs (retyped type_ids offsets t)
  unfolding write_tensor_record read_tensor_record
  write_tensor_record-Parses type_ids offsets t {bs} h =
      >>=-elim (write_string encode t.name) _ h λ name p1 h1.
        >>=-elim (struct_pack 4 (pos (length t.dimensions))) _ h1 λ n_dims p2 h2.
          >>=-elim (write_dimensions encode t.dimensions) _ h2 λ dims p3 h3.
            >>=-elim (subscript t.name type_ids) _ h3 λ type_id p4 h4.
              >>=-elim (struct_pack 4 (pos type_id)) _ h4 λ packed_type p5 h5.
                >>=-elim (subscript t.name offsets) _ h5 λ offset p6 h6.
                  >>=-elim (struct_pack 8 offset) _ h6 λ packed_offset p7 h7.
                    subst (λ b. Parses (read_tensor_record p) b (retyped type_ids offsets t))
                      (ok-injective h7)
                      (Parses-bind (read_string p) _ (write_string-Parses t.name p1) (
                        Parses-bind (read_struct 4) _
                          (struct_pack-Parses 4 (length t.dimensions) p2)
                          (Parses-bind (read_dimensions p (length t.dimensions)) _
                            (write_dimensions-Parses t.dimensions p3)
                            (Parses-bind (read_struct 4) _ (struct_pack-Parses 4 type_id p5) (
                              let same : retyped type_ids offsets t
                                  ≡ record t { type_id = type_id; offset = pos_part offset } =
                                rw (
                                  subscript-inv t.name type_ids p4,
                                  subscript-inv t.name offsets p6,
                                ) in
                              rw same (
                                Parses-return (read_struct 8)
                                  (λ o. record t { type_id = type_id; offset = o })
                                  (struct_pack_ℤ-Parses 8 offset p7)))))))

  -- When `_write_tensor_records` succeeds, with new types and offsets, the reader's loop over as
  -- many records takes exactly the bytes it wrote off any file that has them, at any place, and
  -- gives back the tensors in order, each with its name and dimensions and its new type and
  -- offset. The text codec must give back what it encoded.
  pub write_tensor_records-Parses :
      (type_ids : Dict Text ℕ) (offsets : Dict Text ℤ) (ts : List TensorRecord) {bs : Bytes}
      → write_tensor_records encode type_ids offsets ts ≡ ok bs
      → Parses (read_tensor_records p (length ts)) bs (map (retyped type_ids offsets) ts)
  unfolding write_tensor_records read_tensor_records
  write_tensor_records-Parses type_ids offsets [] h =
      rw (ok-injective h) at (Parses-pure {A = List TensorRecord} [])
  write_tensor_records-Parses type_ids offsets (t ∷ ts) h =
      >>=-elim (write_tensor_record encode type_ids offsets t) _ h λ first p1 h1.
        >>=-elim (write_tensor_records encode type_ids offsets ts) _ h1 λ others p2 h2.
          subst
            (λ b.
              Parses (read_tensor_records p (length (t ∷ ts))) b
                (map (retyped type_ids offsets) (t ∷ ts)))
            (ok-injective h2)
            (Parses-bind (read_tensor_record p) _ (write_tensor_record-Parses type_ids offsets t p1)
              (Parses-return (read_tensor_records p (length ts))
                (λ r. retyped type_ids offsets t ∷ r)
                (write_tensor_records-Parses type_ids offsets ts p2)))
