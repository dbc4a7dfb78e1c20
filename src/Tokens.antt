-- ===== src/Tokens.antt =====
-- The greedy loop over token ids (runtime/generation.py). The model is a parameter: what `forward`
-- answers, and the state of its cache.
pub mod Laws
use pocket_mo_e.Prelude.{
  ℕ, zero, suc, ◌+◌, max, List, [], ◌∷◌, ◌++◌, Option, none, some, Bool, true, false, Result, ok,
  err, value_error, length, list_eq, nat_eq, ◌==◌, if◌then◌else◌, map,
}
use pocket_mo_e.Prelude.Int.{ℤ, pos, negsuc}
use pocket_mo_e.Prelude.Text.{Text, split, strip, parse_int}

int_tokens : List Text → Result (List ℤ)
int_tokens [] = ok []
int_tokens (w ∷ ws) = elim (parse_int w) [
  | none ↦ err value_error
  | some n ↦ elim (int_tokens ws) [ ok ns ↦ ok (n ∷ ns) | err e ↦ err e ]
]

-- the stripped items that are not empty
items : List Text → List Text
items [] = []
items (w ∷ ws) = let rest = items ws in if strip w == [] then rest else strip w ∷ rest

commas : Text → Text
commas text = map (λ c. if c == 10 then b',' else c) text

some_tokens : List Text → Result (List ℤ)
unfolding int_tokens
some_tokens [] = err value_error
some_tokens (w ∷ ws) = int_tokens (w ∷ ws)

-- `parse_tokens_csv`
unfoldable pub parse_tokens_csv : Text → Result (List ℤ)
unfolding items commas some_tokens
parse_tokens_csv text = some_tokens (items (split b',' (commas text)))

abbrev pub is_eos : Option ℕ → ℕ → Bool
is_eos none token = false
is_eos (some eos) token = token == eos

module _ {M : Type 0} (forward : M → List ℕ → ℕ → ℕ × M) where
  -- the loop after the first token, for so many steps; `last` is the token generated last
  unfoldable pub decode_steps : ℕ → Option ℕ → ℕ → ℕ → M → List ℕ × M
  decode_steps zero eos last at m = ([], m)
  decode_steps (suc k) eos last at m =
      let (token, m1) = forward m (last ∷ []) at in
      let (tokens, m2) = decode_steps k eos token (suc at) m1 in
      if is_eos eos last then ([], m) else (token ∷ tokens, m2)

  -- the first token, and the steps after it
  unfoldable pub generate_from : ℕ → Option ℕ → List ℕ → M → List ℕ × M
  generate_from k eos prompt m =
      let (token, m1) = forward m prompt 0 in
      let (tokens, m2) = decode_steps k eos token (length prompt) m1 in (token ∷ tokens, m2)

  -- `greedy_generate_token_ids`: the tokens; `reset` is `reset_cache` for a length
  unfoldable pub greedy_generate_token_ids :
      (ℕ → M → M) → Option ℕ → List ℕ → ℤ → M → Result (List ℕ × M)
  greedy_generate_token_ids reset eos [] n m = err value_error
  greedy_generate_token_ids reset eos (p ∷ ps) (negsuc n) m = err value_error
  greedy_generate_token_ids reset eos (p ∷ ps) (pos zero) m =
      ok ([], reset (max 1 (length (p ∷ ps))) m)
  greedy_generate_token_ids reset eos (p ∷ ps) (pos (suc k)) m =
      ok (generate_from k eos (p ∷ ps) (reset (max 1 (length (p ∷ ps) + suc k)) m))
