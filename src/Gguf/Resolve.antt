-- ===== src/Gguf/Resolve.antt =====
-- Which files a path to a GGUF model stands for (loader/gguf/bundle.py): `resolve_gguf_bundle`. A file
-- goes by its name in its directory; the file system is an argument, and no name has a newline.
use pocket_mo_e.Prelude.{
  ℕ, ◌+◌, ◌*◌, ◌-◌, List, [], ◌∷◌, ◌++◌, map, Option, none, some, Bool, true, false, not, ◌&&◌,
  ◌||◌, Result, ok, err, value_error, file_not_found, all, keep, drop, take, length, replicate,
  range_from, ltb, list_eq, nat_eq, pair_eq, ◌==◌, if◌then◌else◌,
}
use pocket_mo_e.Prelude.Text.{Text, codes, ends_with, all_digits, nat_text, one_of}

-- what `_SHARD_RE` finds in a name: the prefix, and the count as a number
pub record ShardName : Type 0 where
  pub prefix : Text
  pub count : ℕ

digits_value : ℕ → Text → ℕ
digits_value acc [] = acc
digits_value acc (c ∷ t) = digits_value (acc * 10 + (c - b'0')) t

-- `-ddddd-of-ddddd.gguf`
is_shard_end : Text → Bool
is_shard_end t =
    take 1 t == codes "-"
    && (all_digits (take 5 (drop 1 t))
        && (take 4 (drop 6 t) == codes "-of-"
            && (all_digits (take 5 (drop 10 t)) && drop 15 t == codes ".gguf")))

-- `_match_shard_name`: the end of the name has 20 characters, and the prefix one or more
unfoldable pub match_shard_name : Text → Option ShardName
unfolding is_shard_end digits_value
match_shard_name name =
    let cut = length name - 20 in
    let ending = drop cut name in
    if ltb 20 (length name) && is_shard_end ending
    then some (record { prefix = take cut name; count = digits_value 0 (take 5 (drop 10 ending)) })
    else none

-- `{n:05d}`
unfoldable pub five_digits : ℕ → Text
five_digits n = replicate (5 - length (nat_text n)) b'0' ++ nat_text n

unfoldable pub shard_name : ShardName → ℕ → Text
unfolding five_digits
shard_name s i =
    s.prefix
    ++ (codes "-" ++ (five_digits i ++ (codes "-of-" ++ (five_digits s.count ++ codes ".gguf"))))

-- the names of all shards, in order
unfoldable pub expected_shards : ShardName → List Text
unfolding shard_name
expected_shards s = map (shard_name s) (range_from 1 s.count)

-- `path.suffix == ".gguf"`
unfoldable pub has_gguf_suffix : Text → Bool
unfolding ends_with
has_gguf_suffix name = ltb 5 (length name) && ends_with (codes ".gguf") name

-- the order of texts
unfoldable pub text_leb : Text → Text → Bool
text_leb [] t = true
text_leb (c ∷ s) [] = false
text_leb (c ∷ s) (d ∷ t) = ltb c d || (c == d && text_leb s t)

insert_name : Text → List Text → List Text
insert_name n [] = n ∷ []
insert_name n (m ∷ ms) =
    let rest = insert_name n ms in
    if text_leb (take (length n - 5) n) (take (length m - 5) m) then n ∷ (m ∷ ms) else m ∷ rest

-- `_sort_paths` where no name is that of a shard: by the names without their suffix
unfoldable pub sort_names : List Text → List Text
unfolding insert_name
sort_names [] = []
sort_names (n ∷ ns) = insert_name n (sort_names ns)

-- the shards that the names of a directory speak of, each once
add_group : ShardName → List ShardName → List ShardName
add_group s [] = s ∷ []
add_group s (g ∷ gs) =
    let rest = add_group s gs in
    if s.prefix == g.prefix && s.count == g.count then g ∷ gs else g ∷ rest

unfoldable pub shard_groups : List Text → List ShardName
unfolding add_group
shard_groups [] = []
shard_groups (n ∷ ns) = elim (match_shard_name n) [
  | none ↦ shard_groups ns
  | some s ↦ add_group s (shard_groups ns)
]

-- What the path is: missing, a directory with the names in it and those of its files, or a file with
-- the names beside it.
pub data Location : Type 0 where
  missing : Location
  directory : (names files : List Text) → Location
  file : (name : Text) (names : List Text) → Location

-- the shards, if they are all there
unfoldable pub all_present : ShardName → List Text → Result (List Text)
all_present s names =
    if all (λ n. one_of n names) (expected_shards s)
    then ok (expected_shards s)
    else err file_not_found

-- in a directory, once the groups are known
one_group : List ShardName → List Text → List Text → Result (List Text)
one_group [] names files = ok (sort_names files)
one_group (s ∷ []) names files = all_present s names
one_group (s ∷ s' ∷ ss) names files = err value_error

-- `resolve_gguf_bundle`
unfoldable pub resolve_gguf_bundle : Location → Result (List Text)
unfolding one_group
resolve_gguf_bundle missing = err file_not_found
resolve_gguf_bundle (directory names files) = elim (keep has_gguf_suffix files) [
  | [] ↦ err file_not_found
  | f ∷ fs ↦ one_group (shard_groups (f ∷ fs)) names (f ∷ fs)
]
resolve_gguf_bundle (file name names) =
    if not (has_gguf_suffix name)
    then err value_error
    else elim (match_shard_name name) [ none ↦ ok (name ∷ []) | some s ↦ all_present s names ]
