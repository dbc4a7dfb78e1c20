-- ===== src/Gguf/Laws/Layout.antt =====
-- Alignment: where a payload may start, and what padding a file does.
use native.Mathlib.Nat.{div-add-mod, mod-lt, mul-mod_left}
use mathlib.Core.List.{append-nil}
use pocket_mo_e.Prelude.{
  ℕ, suc, ◌+◌, ◌-◌, ◌*◌, ◌/◌, ◌%◌, ◌≤◌, ◌≡◌, ap, ◌++◌, ok, length, length-append, length-replicate,
  replicate, take, take-append_length, ltb, Bool-cases, inl, inr, if◌then◌else◌, arith, nat_eq,
  list_eq,
}
use pocket_mo_e.Prelude.Int.{pos, negsuc, ◌+ℤ◌, ◌*ℤ◌, floor_div}
use pocket_mo_e.Gguf.Stream.{Bytes}
use pocket_mo_e.Gguf.Types.{align_up}
use pocket_mo_e.Gguf.Writer.{pad_file}

-- the least multiple of `a` that is at least `v`
abbrev pub aligned : ℕ → ℕ → ℕ
aligned v a = (v + a - 1) / a * a

sum_less_one : (v a : ℕ) → pos v +ℤ pos (suc a) +ℤ negsuc 0 ≡ pos (v + suc a - 1)
unfolding ◌+ℤ◌
sum_less_one v a = ground arith

product_pos : (q b : ℕ) → pos q *ℤ pos b ≡ pos (q * b)
unfolding ◌*ℤ◌
product_pos q b = ground arith

pub align_up-aligned : (v a : ℕ) → align_up (pos v) (pos (suc a)) ≡ ok (pos (aligned v (suc a)))
unfolding align_up floor_div
align_up-aligned v a = rw (sum_less_one v a, product_pos ((v + suc a - 1) / suc a) (suc a))

-- A position is raised to a multiple of the alignment, by less than the alignment.
pub aligned_bounds :
    (v a : ℕ)
    → (v ≤ aligned v (suc a)) × (aligned v (suc a) ≤ v + a) × (aligned v (suc a) % suc a ≡ 0)
aligned_bounds v a =
    let n : ℕ = v + suc a - 1 in
    (
      omega (arith, div-add-mod n (suc a), mod-lt n {m = suc a} (omega arith)),
      omega (arith, div-add-mod n (suc a)),
      mul-mod_left (n / suc a) (suc a),
    )

padded_or_same :
    (out : Bytes) (n m : ℕ)
    → n ≤ m
    → (if ltb (n + 0) (m + 0) then out ++ replicate (m - n) 0 else out) ≡ out ++ replicate (m - n) 0
padded_or_same out n m h = elim (Bool-cases (ltb (n + 0) (m + 0))) [
  | inl less ↦ rw less
  | inr same ↦ let e : m - n ≡ 0 = ground arith in rw (same, e, append-nil)
]

-- Padding appends zeros, up to the next multiple of the alignment.
pub pad_file-aligned :
    (a : ℕ) (out : Bytes)
    → pad_file (pos (suc a)) out
      ≡ ok (out ++ replicate (aligned (length out) (suc a) - length out) 0)
unfolding pad_file
pad_file-aligned a out = rw (align_up-aligned (length out) a) (
    ap ok (
      padded_or_same out (length out) (aligned (length out) (suc a))
        (aligned_bounds (length out) a).0))

-- With a positive alignment `_pad_file` succeeds: the output begins as before, and its length is
-- the old one rounded up to a multiple of the alignment.
pub length-pad_file :
    (a : ℕ) (out : Bytes)
    → (padded : Bytes) × (pad_file (pos (suc a)) out ≡ ok padded)
      × (take (length out) padded ≡ out)
      × (length padded ≡ aligned (length out) (suc a))
      × (length padded % suc a ≡ 0)
length-pad_file a out =
    let n : ℕ = aligned (length out) (suc a) - length out in
    let (above, below, even) = aligned_bounds (length out) a in
    let size : length (out ++ replicate n 0) ≡ aligned (length out) (suc a) =
      omega (arith, length-append out (replicate n 0), length-replicate {A = ℕ} n 0) in
    (
      out ++ replicate n 0,
      pad_file-aligned a out,
      take-append_length out (replicate n 0),
      size,
      rw size even,
    )
