-- ===== src/Gguf/Stream.antt =====
-- A binary file open for reading, as the reader uses it: `f.read`, `f.seek(n, SEEK_CUR)` and
-- `f.tell()`, with `_read_struct` for the little-endian formats (loader/gguf/reader.py). The file
-- is its bytes, and the position may pass the end, as Python allows for a seek. That Python refuses a
-- count or a position of 2 ^ 63 or more with OverflowError is left out.
use pocket_mo_e.Prelude.{
  ℕ, zero, suc, ◌+◌, ◌*◌, ◌/◌, ◌%◌, List, [], ◌∷◌, Result, ok, err, Exception, eof_error, length,
  take, drop, ◌==◌, nat_eq, if◌then◌else◌,
}

abbrev pub Bytes : Type 0
Bytes = List ℕ

-- A computation over an open file: the bytes, the position, and the position that it leaves.
abbrev pub Reader {ℓ} : Type ℓ → Type ℓ
Reader A = Bytes → ℕ → Result (A × ℕ)

module _ {ℓ} {A : Type ℓ} where
  abbrev pub pure : A → Reader A
  pure a file pos = ok (a, pos)

  abbrev pub raise : Exception → Reader A
  raise e file pos = err e

  abbrev pub lift : Result A → Reader A
  lift (ok a) file pos = ok (a, pos)
  lift (err e) file pos = err e

module _ {ℓ κ} {A : Type ℓ} {B : Type κ} where
  abbrev pub continue : Result (A × ℕ) → (A → Reader B) → Bytes → Result (B × ℕ)
  continue (ok (a, pos)) f file = f a file pos
  continue (err e) f file = err e

  infixl 5 ◌>>=◌
  abbrev pub ◌>>=◌ : Reader A → (A → Reader B) → Reader B
  ◌>>=◌ m f file pos = continue (m file pos) f file

infixl 5 ◌>>◌
abbrev pub ◌>>◌ {ℓ} : {B : Type ℓ} → Reader (Unit {0}) → Reader B → Reader B
m >> k = m >>= λ _. k

-- `f.read(n)`: what is left, if that is less
unfoldable pub read : ℕ → Reader Bytes
read n file pos = let found = take n (drop pos file) in ok (found, pos + length found)

-- `f.seek(n, os.SEEK_CUR)`
unfoldable pub seek : ℕ → Reader (Unit {0})
seek n file pos = ok (tt, pos + n)

-- `f.tell()`
unfoldable pub tell : Reader ℕ
tell file pos = ok (pos, pos)

-- `data = f.read(n)`, refused with EOFError if it is short
unfoldable pub read_exactly : ℕ → Reader Bytes
read_exactly n = do found ← read n; if length found == n then pure found else raise eof_error

-- `struct.unpack` of a little-endian unsigned number
unfoldable pub unpack : Bytes → ℕ
unpack [] = 0
unpack (b ∷ bs) = b + 256 * unpack bs

-- `struct.pack` of one, in `w` bytes
unfoldable pub pack : ℕ → ℕ → Bytes
pack zero n = []
pack (suc w) n = (n % 256) ∷ pack w (n / 256)

-- `_read_struct(f, fmt)` for an unsigned format of `w` bytes
unfoldable pub read_struct : ℕ → Reader ℕ
read_struct w = do found ← read_exactly w; pure (unpack found)

abbrev pub read_u32 : Reader ℕ
read_u32 = read_struct 4

abbrev pub read_u64 : Reader ℕ
read_u64 = read_struct 8
