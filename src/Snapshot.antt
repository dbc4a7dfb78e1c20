-- ===== src/Snapshot.antt =====
-- The cache of prefix snapshots (runtime/prefix_snapshot.py): an ordered dictionary of entries, the
-- one used last at its end. The digest of a prefix, and what copies the tensors of a model out and
-- in, are parameters; a hint carries the digest itself, where the program writes it in hexadecimal.
pub mod Laws
use pocket_mo_e.Prelude.{
  ℕ, zero, suc, ◌+◌, ◌*◌, ◌-◌, ◌/◌, ◌%◌, ◌==◌, Eq, List, [], ◌∷◌, ◌++◌, map, Option, none, some,
  Bool, true, false, not, ◌&&◌, ◌||◌, if◌then◌else◌, ltb, leb, length, take, range_from, list_eq,
  nat_eq,
}
use pocket_mo_e.Prelude.Dict
use pocket_mo_e.Prelude.Dict.{Dict}
use pocket_mo_e.Prelude.Int.{ℤ, pos, negsuc}
use pocket_mo_e.Prelude.Text.{Text, codes, lower, one_of, parse_int}
use pocket_mo_e.Partition.{Environ, getenv}

-- `_env_flag`
unfoldable pub env_flag : Environ → Text → Bool
env_flag env name =
    one_of (lower (getenv env name (codes "0"))) (codes "1" ∷ codes "true" ∷ codes "yes" ∷ [])

-- `enabled`
unfoldable pub enabled : Environ → Bool
enabled env = env_flag env (codes "DEEPSEEK_PREFIX_SNAPSHOT")

int_or : ℕ → Option ℤ → ℤ
int_or default none = pos default
int_or default (some n) = n

-- `_env_int`; a default is the block size or a count of entries
unfoldable pub env_int : Environ → Text → ℕ → ℤ
unfolding int_or
env_int env name default = elim (Dict.get name env) [
  | none ↦ pos default
  | some v ↦ int_or default (parse_int v)
]

-- `max(low, n)`
unfoldable pub at_least : ℕ → ℤ → ℕ
at_least low (pos n) = if ltb low n then n else low
at_least low (negsuc n) = low

-- `SnapshotEntry`
pub record SnapshotEntry (B : Type 0) : Type 0 where
  pub pos_of : ℕ
  pub token_ids : List ℕ
  pub buffers : B
  pub age : ℕ

-- the fields of `PrefixSnapshotCache`
pub record PrefixSnapshotCache (K B : Type 0) : Type 0 where
  pub entries : Dict K (SnapshotEntry B)
  pub tick : ℕ
  pub block : ℕ
  pub max_entries : ℕ
  pub min_tokens : ℕ

-- what `lookup_hint` answers
pub record Hint (K : Type 0) : Type 0 where
  pub match_key : Option K
  pub match_pos : ℕ
  pub capture_positions : List ℕ

-- `PrefixSnapshotCache.__init__`
unfoldable pub new_cache : {K B : Type 0} → Environ → PrefixSnapshotCache K B
new_cache env =
    let size = at_least 1 (env_int env (codes "DEEPSEEK_PREFIX_SNAPSHOT_BLOCK") 256) in
    record {
      entries = [];
      tick = 0;
      block = size;
      max_entries = at_least 1 (env_int env (codes "DEEPSEEK_PREFIX_SNAPSHOT_MAX_ENTRIES") 8);
      min_tokens = at_least size (env_int env (codes "DEEPSEEK_PREFIX_SNAPSHOT_MIN_TOKENS") size);
    }

-- `range(step, count * step + 1, step)`
multiples : ℕ → ℕ → List ℕ
multiples step count = map (λ i. i * step) (range_from 1 count)

has_tokens : {B : Type 0} → List ℕ → Option (SnapshotEntry B) → Bool
has_tokens prefix none = false
has_tokens prefix (some entry) = entry.token_ids == prefix

-- the tests of `restore` on the entry it finds
usable : {B : Type 0} → SnapshotEntry B → ℕ → List ℕ → Bool
usable entry n token_ids =
    (entry.pos_of == n)
    && (ltb entry.pos_of (length token_ids) && entry.token_ids == take entry.pos_of token_ids)

-- `while len(self._entries) > self.max_entries: popitem(last=False)`
unfoldable pub evict : {K B : Type 0} → ℕ → Dict K (SnapshotEntry B) → Dict K (SnapshotEntry B)
evict limit [] = []
evict limit (x ∷ xs) =
    let rest = evict limit xs in if ltb limit (length (x ∷ xs)) then rest else x ∷ xs

-- the guards at the head of `capture`
unfoldable pub wants_capture : {K B : Type 0} → PrefixSnapshotCache K B → List ℕ → ℕ → Bool
wants_capture c token_ids n =
    not (n == 0 || (ltb (length token_ids) n || not (n % c.block == 0))) && leb c.min_tokens n

-- `clear`
unfoldable pub clear : {K B : Type 0} → PrefixSnapshotCache K B → PrefixSnapshotCache K B
clear c = record c { entries = [] }

-- `_hash`: the digest covers the length and the tokens of the prefix
unfoldable pub hash : {K : Type 0} → (ℕ → List ℕ → K) → List ℕ → ℕ → K
hash digest token_ids n = digest n (take n token_ids)

module _ {K B : Type 0} ⦃eq_key : Eq K⦄ where
  -- `move_to_end`, the tick, and the age of the entry
  unfoldable pub touch : K → SnapshotEntry B → PrefixSnapshotCache K B → PrefixSnapshotCache K B
  touch key entry c = record c {
    entries = Dict.remove key c.entries ++ (key, record entry { age = suc c.tick }) ∷ [];
    tick = suc c.tick;
  }

  touch_found : K → Option (SnapshotEntry B) → PrefixSnapshotCache K B → PrefixSnapshotCache K B
  touch_found key none c = c
  touch_found key (some entry) c = touch key entry c

  restore_entry :
      {M : Type 0}
      → (B → M → M)
      → K
      → Option (SnapshotEntry B)
      → ℕ
      → List ℕ
      → M × PrefixSnapshotCache K B
      → ℕ × (M × PrefixSnapshotCache K B)
  unfolding usable
  restore_entry apply_buffers key none n token_ids (model, c) = (0, (model, c))
  restore_entry apply_buffers key (some entry) n token_ids (model, c) =
      if usable entry n token_ids
      then (entry.pos_of, (apply_buffers entry.buffers model, touch key entry c))
      else (0, (model, c))

  restore_key :
      {M : Type 0}
      → (B → M → M)
      → Option K
      → ℕ
      → List ℕ
      → M × PrefixSnapshotCache K B
      → ℕ × (M × PrefixSnapshotCache K B)
  unfolding restore_entry
  restore_key apply_buffers none n token_ids (model, c) = (0, (model, c))
  restore_key apply_buffers (some key) n token_ids (model, c) =
      if n == 0
      then (0, (model, c))
      else restore_entry apply_buffers key (Dict.get key c.entries) n token_ids (model, c)

  -- `restore`: the number of tokens restored, the model and the cache after it
  unfoldable pub restore :
      {M : Type 0}
      → (B → M → M)
      → Option (Hint K)
      → List ℕ
      → M × PrefixSnapshotCache K B
      → ℕ × (M × PrefixSnapshotCache K B)
  unfolding restore_key
  restore apply_buffers none token_ids s = (0, s)
  restore apply_buffers (some hint) token_ids s =
      restore_key apply_buffers hint.match_key hint.match_pos token_ids s

module _ {K B : Type 0} ⦃eq_key : Eq K⦄ (digest : ℕ → List ℕ → K) where
  -- an entry stands for the first `n` tokens
  unfoldable pub held : PrefixSnapshotCache K B → List ℕ → ℕ → Bool
  unfolding has_tokens
  held c token_ids n = has_tokens (take n token_ids) (Dict.get (hash digest token_ids n) c.entries)

  -- the loop of `lookup_hint`: `n` is `q` blocks, and one block less each time
  unfoldable pub longest : PrefixSnapshotCache K B → List ℕ → ℕ → ℕ
  longest c token_ids zero = 0
  longest c token_ids (suc q) =
      if held c token_ids (suc q * c.block) then suc q * c.block else longest c token_ids q

  -- the entry of the match is the one used last
  unfoldable pub after_lookup : List ℕ → ℕ → PrefixSnapshotCache K B → PrefixSnapshotCache K B
  unfolding touch_found
  after_lookup token_ids zero c = c
  after_lookup token_ids (suc n) c =
      touch_found (hash digest token_ids (suc n))
        (Dict.get (hash digest token_ids (suc n)) c.entries) c

  hint_for : Environ → List ℕ → PrefixSnapshotCache K B → ℕ → Hint K
  unfolding multiples
  hint_for env token_ids c n = record {
    match_key = if n == 0 then none else some (hash digest token_ids n);
    match_pos = n;
    capture_positions =
        let blocks = length token_ids / c.block in
        if env_flag env (codes "DEEPSEEK_PREFIX_SNAPSHOT_CAPTURE_ALL")
        then multiples c.block blocks
        else blocks * c.block ∷ [];
  }

  -- `lookup_hint`: the hint, or None, and the cache after it
  unfoldable pub lookup_hint :
      Environ → List ℕ → PrefixSnapshotCache K B → Option (Hint K) × PrefixSnapshotCache K B
  unfolding hint_for
  lookup_hint env token_ids c =
      let n = longest c token_ids ((length token_ids - 1) / c.block) in
      if (length token_ids == 0) || ltb (length token_ids / c.block * c.block) c.min_tokens
      then (none, c)
      else (some (hint_for env token_ids c n), after_lookup token_ids n c)

  insert_entry : List ℕ → ℕ → B → PrefixSnapshotCache K B → PrefixSnapshotCache K B
  insert_entry token_ids n buffers c = record c {
    entries = evict c.max_entries (
        Dict.put (hash digest token_ids n)
          (record { pos_of = n; token_ids = take n token_ids; buffers = buffers; age = suc c.tick })
          c.entries);
    tick = suc c.tick;
  }

  -- `capture`, with no other thread between its two critical sections
  unfoldable pub capture :
      {M : Type 0}
      → (M → ℕ → B)
      → M
      → List ℕ
      → ℕ
      → PrefixSnapshotCache K B
      → PrefixSnapshotCache K B
  unfolding insert_entry
  capture clone_buffers model token_ids n c =
      if wants_capture c token_ids n
      then (if held c token_ids n
          then after_lookup token_ids n c
          else insert_entry token_ids n (clone_buffers model n) c)
      else c
