-- ===== src/Gguf/Laws/Parses.antt =====
-- When a reader takes just the given bytes off a file, wherever they stand in it.
use native.Mathlib.Nat.{pow-suc}
use mathlib.Core.List.{append_assoc}
use pocket_mo_e.Prelude.{
  ℕ, zero, suc, ◌+◌, ◌/◌, ◌^◌, ◌<◌, ◌≡◌, refl, sym, ap, ap₂, ◌∙◌, List, [], ◌∷◌, ◌++◌, Result, ok,
  err, length, drop, length-append, take-append_length, drop-append_length, beq_refl, arith, nat_eq,
}
use pocket_mo_e.Gguf.Stream.{
  Bytes, Reader, pure, continue, ◌>>=◌, read, read_exactly, unpack, pack, read_struct,
}

pub drop-nil {ℓ} : {A : Type ℓ} (n : ℕ) → drop {A = A} n [] ≡ []
drop-nil zero = refl
drop-nil (suc n) = refl

pub drop-add {ℓ} : {A : Type ℓ} (a b : ℕ) (xs : List A) → drop (a + b) xs ≡ drop b (drop a xs)
drop-add zero b xs = ap (λ (n : ℕ). drop n xs) (omega arith)
drop-add (suc a) b [] = drop-nil (suc a + b) ∙ sym (drop-nil b)
drop-add (suc a) b (x ∷ xs) =
    let e : suc a + b ≡ suc (a + b) = omega arith in rw e (drop-add a b xs)

pub record Parses {ℓ} {A : Type ℓ} (r : Reader A) (bs : Bytes) (a : A) : Type ℓ where
  pub at :
      (file : Bytes) (pos : ℕ) (rest : Bytes)
      → drop pos file ≡ bs ++ rest
      → r file pos ≡ ok (a, pos + length bs)

drop-advance :
    (file bs rest : Bytes) (pos : ℕ)
    → drop pos file ≡ bs ++ rest
    → drop (pos + length bs) file ≡ rest
drop-advance file bs rest pos h =
    drop-add pos (length bs) file ∙ ap (drop (length bs)) h ∙ drop-append_length bs rest

pub Parses-pure {ℓ} : {A : Type ℓ} (a : A) → Parses (pure a) [] a
Parses-pure a = record { at = λ file pos rest h. ap (λ (n : ℕ). ok (a, n)) (omega arith) }

module _ {ℓ κ} {A : Type ℓ} {B : Type κ} where
  pub Parses-bind :
      (r : Reader A) (k : A → Reader B) {bs cs : Bytes} {a : A} {b : B}
      → Parses r bs a
      → Parses (k a) cs b
      → Parses (r >>= k) (bs ++ cs) b
  Parses-bind r k {bs} {cs} {a} {b} h g = record {
    at = λ file pos rest e.
        let e' = e ∙ append_assoc bs cs rest in
        rw (h.at file pos (cs ++ rest) e') (
          g.at file (pos + length bs) rest (drop-advance file bs (cs ++ rest) pos e')
          ∙ ap (λ (n : ℕ). ok (b, n)) (omega (arith, length-append bs cs)));
  }

pub read_exactly-Parses : (bs : Bytes) → Parses (read_exactly (length bs)) bs bs
unfolding read_exactly read
read_exactly-Parses bs = record {
  at = λ file pos rest e. rw (e, take-append_length bs rest, beq_refl (length bs));
}

length-pack : (w n : ℕ) → length (pack w n) ≡ w
unfolding pack
length-pack zero n = refl
length-pack (suc w) n = ap suc (length-pack w (n / 256))

unpack-pack : (w n : ℕ) → n < 256 ^ w → unpack (pack w n) ≡ n
unfolding pack unpack
unpack-pack zero n h = omega arith
unpack-pack (suc w) n h =
    omega (arith, pow-suc 256 w, unpack-pack w (n / 256) (omega (arith, pow-suc 256 w)))

read_exactly-pack :
    (w n : ℕ) (file rest : Bytes) (pos : ℕ)
    → drop pos file ≡ pack w n ++ rest
    → read_exactly w file pos ≡ ok (pack w n, pos + w)
read_exactly-pack w n file rest pos e =
    let found = (read_exactly-Parses (pack w n)).at file pos rest e in rw (length-pack w n) at found

pub read_struct-Parses : (w n : ℕ) → n < 256 ^ w → Parses (read_struct w) (pack w n) n
unfolding read_struct
read_struct-Parses w n h = record {
  at = λ file pos rest e.
      ap (λ r. continue r (λ found. pure (unpack found)) file)
        (read_exactly-pack w n file rest pos e)
      ∙ ap₂ (λ (m k : ℕ). ok (m, pos + k)) (unpack-pack w n h) (sym (length-pack w n));
}

-- A chain of reads that succeeds, with its parts bound as variables.
pub reads-elim {ℓ κ μ} :
    {A : Type ℓ} {B : Type κ} {C : Type μ} (m : Reader A) (f : A → Reader B) {file : Bytes} {at : ℕ}
    {b : B} {end : ℕ}
    → (m >>= f) file at ≡ ok (b, end)
    → ((a : A) (mid : ℕ) → m file at ≡ ok (a, mid) → f a file mid ≡ ok (b, end) → C)
    → C
reads-elim {A = A} {C = C} m f {file} {at} {b} {end} h k = go (m file at) refl h
  where
    go : (r : Result (A × ℕ)) → m file at ≡ r → continue r f file ≡ ok (b, end) → C
    go (ok (a, mid)) e h' = k a mid e h'
    go (err x) e h' = absurd (cc)
