-- ===== src/Gguf/Laws/Copy.antt =====
-- The chunked copy of a payload copies it whole.
use mathlib.Core.List.{append_assoc, append-nil}
use pocket_mo_e.Prelude.{
  ℕ, zero, suc, ◌+◌, ◌-◌, ◌≤◌, ◌<◌, ◌≡◌, refl, sym, ap, ◌∙◌, ◌++◌, List, [], ◌∷◌, some, ok, err,
  eof_error, length, take, drop, min, length-take, length-drop, arith,
}
use pocket_mo_e.Gguf.Stream.{Bytes}
use pocket_mo_e.Gguf.Laws.Parses.{drop-add}
use pocket_mo_e.Gguf.Writer.{copy_bytes}

take-nil {ℓ} : {A : Type ℓ} (n : ℕ) → take {A = A} n [] ≡ []
take-nil zero = refl
take-nil (suc n) = refl

take-add {ℓ} :
    {A : Type ℓ} (a b : ℕ) (xs : List A) → take (a + b) xs ≡ take a xs ++ take b (drop a xs)
take-add zero b xs = ap (λ (n : ℕ). take n xs) (omega arith)
take-add (suc a) b [] = take-nil (suc a + b) ∙ sym (take-nil b)
take-add (suc a) b (x ∷ xs) =
    let e : suc a + b ≡ suc (a + b) = omega arith in rw e (ap (◌∷◌ x) (take-add a b xs))

-- one round of the copy and the rest, put together
take-round :
    (src out : Bytes) (offset remaining size : ℕ)
    → size ≤ remaining
    → (out ++ take size (drop offset src)) ++ take (remaining - size) (drop (offset + size) src)
      ≡ out ++ take remaining (drop offset src)
take-round src out offset remaining size h =
    let e : size + (remaining - size) ≡ remaining = omega arith in
    append_assoc out _ _
    ∙ ap (λ t. out ++ (take size (drop offset src) ++ take (remaining - size) t))
        (drop-add offset size src)
    ∙ ap (λ t. out ++ t) (sym (take-add size (remaining - size) (drop offset src)))
    ∙ ap (λ (n : ℕ). out ++ take n (drop offset src)) e

-- With a chunk size above 0, and fuel above the number of bytes, `_copy_bytes` ends and appends
-- just the bytes asked for, when the file holds them all.
pub copy_bytes-take :
    (fuel : ℕ) (src out : Bytes) (offset remaining chunk : ℕ)
    → 0 < chunk
    → remaining < fuel
    → offset + remaining ≤ length src
    → copy_bytes fuel src out offset remaining chunk
      ≡ some (ok (out ++ take remaining (drop offset src)))
unfolding copy_bytes
copy_bytes-take zero src out offset remaining chunk c f h = elim f [ ]
copy_bytes-take (suc fuel) src out offset zero chunk c f h =
    ap (λ o. some (ok o)) (sym (append-nil out))
copy_bytes-take (suc fuel) src out offset (suc r) chunk c f h =
    let size = min (suc r) chunk in
    ground (
      arith,
      length-take size (drop offset src),
      length-drop offset src,
      take-round src out offset (suc r) size,
      copy_bytes-take fuel src (out ++ take size (drop offset src)) (offset + size) (suc r - size)
          chunk,
    )

-- With a chunk size above 0, and fuel above the number of bytes, `_copy_bytes` of one byte or more
-- that pass the end of the file raises EOFError.
pub copy_bytes-short :
    (fuel : ℕ) (src out : Bytes) (offset remaining chunk : ℕ)
    → 0 < chunk
    → remaining < fuel
    → 0 < remaining
    → length src < offset + remaining
    → copy_bytes fuel src out offset remaining chunk ≡ some (err eof_error)
unfolding copy_bytes
copy_bytes-short zero src out offset remaining chunk c f r h = elim f [ ]
copy_bytes-short (suc fuel) src out offset remaining chunk c f r h = ground (
  arith,
  length-take (min remaining chunk) (drop offset src),
  length-drop offset src,
  copy_bytes-short fuel src (out ++ take (min remaining chunk) (drop offset src))
      (offset + min remaining chunk) (remaining - min remaining chunk) chunk,
)
