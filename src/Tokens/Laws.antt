-- ===== src/Tokens/Laws.antt =====
-- How many tokens the greedy loop makes, and where it stops.
use pocket_mo_e.Prelude.{
  ℕ, zero, suc, ◌+◌, ◌≡◌, ◌⊎◌, inl, inr, refl, max, List, [], ◌∷◌, Option, true, false, ok, length,
  Bool-cases, nat_eq,
}
use pocket_mo_e.Prelude.Int.{pos}
use pocket_mo_e.Tokens.{is_eos, decode_steps, generate_from, greedy_generate_token_ids}

-- A token that ends a text is the last: the tokens are as many as were asked for, or fewer, and
-- then the last is the end of text; and no token before the last is.
abbrev pub Stops : ℕ → Option ℕ → ℕ → List ℕ → Type 0
Stops n eos last [] = (n ≡ 0) ⊎ (is_eos eos last ≡ true)
Stops zero eos last (t ∷ ts) = ⊥
Stops (suc n) eos last (t ∷ ts) = (is_eos eos last ≡ false) × Stops n eos t ts

module _ {M : Type 0} (forward : M → List ℕ → ℕ → ℕ × M) where
  decode_steps-Stops :
      (k : ℕ) (eos : Option ℕ) (last at : ℕ) (m : M)
      → Stops k eos last (decode_steps forward k eos last at m).0
  unfolding decode_steps
  decode_steps-Stops zero eos last at m = inl refl
  decode_steps-Stops (suc k) eos last at m = elim (Bool-cases (is_eos eos last)) [
    | inl t ↦ rw t (inr t)
    | inr f ↦
        let r = forward m (last ∷ []) at in rw f (f, decode_steps-Stops k eos r.0 (suc at) r.1)
  ]

  -- For a prompt that is not empty and one new token or more, the greedy loop succeeds with a first
  -- token and others that stop as they should: each follows a token that is not the end of text,
  -- all together are no more than were asked for, and they are fewer only when the last of them is
  -- the end of text.
  pub greedy_generate_token_ids-Stops :
      (reset : ℕ → M → M) (eos : Option ℕ) (p : ℕ) (ps : List ℕ) (k : ℕ) (m : M)
      → (first : ℕ) × (others : List ℕ) × (after : M) × (greedy_generate_token_ids forward reset eos
            (p ∷ ps)
            (pos (suc k))
            m
          ≡ ok (first ∷ others, after))
        × Stops k eos first others
  unfolding greedy_generate_token_ids generate_from
  greedy_generate_token_ids-Stops reset eos p ps k m =
      let m0 = reset (max 1 (length (p ∷ ps) + suc k)) m in
      let r = forward m0 (p ∷ ps) 0 in
      let d = decode_steps forward k eos r.0 (length (p ∷ ps)) r.1 in
      (r.0, d.0, d.1, refl, decode_steps-Stops k eos r.0 (length (p ∷ ps)) r.1)
