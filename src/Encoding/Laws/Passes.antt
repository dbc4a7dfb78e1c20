-- ===== src/Encoding/Laws/Passes.antt =====
-- The passes over a conversation (encoding/dsv4.py): sorting the results of the tools.
use pocket_mo_e.Prelude.{
  ℕ, suc, ◌≤◌, List, [], ◌∷◌, map, Option, none, some, true, inl, inr, ◌≡◌, refl, ap, ◌∙◌, All,
  length, leb, ltb, leb→le, if◌then◌else◌, keep, nat_eq, ◌==◌, Bool-cases, arith,
}
use pocket_mo_e.Prelude.Dict
use pocket_mo_e.Prelude.Dict.{Dict}
use pocket_mo_e.Prelude.Text.{Text}
use pocket_mo_e.Encoding.{Block, text_block, tool_result, other_block}
use pocket_mo_e.Encoding.Messages.{
  rank, is_tool_result, tool_blocks, insert_block, sort_blocks, refill, sort_results,
}

-- Results in the order of the calls: none stands before one of a lower rank.
abbrev pub IsSorted : Dict Text ℕ → List Block → Type 0
IsSorted order [] = Unit
IsSorted order (b ∷ bs) = All (λ c. rank order b ≤ rank order c) bs × IsSorted order bs

-- what stands in the places of a message: the blocks that are no results
abbrev pub places : List Block → List (Option Block)
places bs = map (λ b. if is_tool_result b then none else some b) bs

insert-All :
    (order : Dict Text ℕ) (P : Block → Type 0) (b : Block) (cs : List Block)
    → P b
    → All P cs
    → All P (insert_block order b cs)
unfolding insert_block
insert-All order P b [] hb hs = (hb, tt)
insert-All order P b (c ∷ cs) hb hs = elim (Bool-cases (leb (rank order b) (rank order c))) [
  | inl t ↦ rw t (hb, hs)
  | inr f ↦ rw f (hs.0, insert-All order P b cs hb hs.1)
]

All-le_trans :
    (order : Dict Text ℕ) (m n : ℕ) (cs : List Block)
    → m ≤ n
    → All (λ c. n ≤ rank order c) cs
    → All (λ c. m ≤ rank order c) cs
All-le_trans order m n [] le h = tt
All-le_trans order m n (c ∷ cs) le h = (omega (arith, h.0), All-le_trans order m n cs le h.1)

insert-IsSorted :
    (order : Dict Text ℕ) (b : Block) (cs : List Block)
    → IsSorted order cs
    → IsSorted order (insert_block order b cs)
unfolding insert_block
insert-IsSorted order b [] h = (tt, tt)
insert-IsSorted order b (c ∷ cs) h = elim (Bool-cases (leb (rank order b) (rank order c))) [
  | inl t ↦
      let le = leb→le (rank order b) (rank order c) t in
      rw t ((le, All-le_trans order (rank order b) (rank order c) cs le h.0), h)
  | inr f ↦ rw f (
    insert-All order (λ d. rank order c ≤ rank order d) b cs (ground arith) h.0,
    insert-IsSorted order b cs h.1,
  )
]

sort_blocks-IsSorted :
    (order : Dict Text ℕ) (bs : List Block) → IsSorted order (sort_blocks order bs)
unfolding sort_blocks
sort_blocks-IsSorted order [] = tt
sort_blocks-IsSorted order (b ∷ bs) =
    insert-IsSorted order b (sort_blocks order bs) (sort_blocks-IsSorted order bs)

sort_blocks-All :
    (order : Dict Text ℕ) (P : Block → Type 0) (bs : List Block)
    → All P bs
    → All P (sort_blocks order bs)
unfolding sort_blocks
sort_blocks-All order P [] h = tt
sort_blocks-All order P (b ∷ bs) h =
    insert-All order P b (sort_blocks order bs) h.0 (sort_blocks-All order P bs h.1)

insert_length :
    (order : Dict Text ℕ) (b : Block) (cs : List Block)
    → length (insert_block order b cs) ≡ suc (length cs)
unfolding insert_block
insert_length order b [] = refl
insert_length order b (c ∷ cs) = ground (arith, insert_length order b cs)

sort_length : (order : Dict Text ℕ) (bs : List Block) → length (sort_blocks order bs) ≡ length bs
unfolding sort_blocks
sort_length order [] = refl
sort_length order (b ∷ bs) =
    insert_length order b (sort_blocks order bs) ∙ ap suc (sort_length order bs)

tool_blocks-All : (bs : List Block) → All (λ b. is_tool_result b ≡ true) (tool_blocks bs)
unfolding tool_blocks
tool_blocks-All [] = tt
tool_blocks-All (b ∷ bs) = elim (Bool-cases (is_tool_result b)) [
  | inl t ↦ rw t (t, tool_blocks-All bs)
  | inr f ↦ rw f (tool_blocks-All bs)
]

places-refill :
    (bs ss : List Block) → All (λ b. is_tool_result b ≡ true) ss → places (refill bs ss) ≡ places bs
unfolding refill
places-refill [] ss h = refl
places-refill (b ∷ bs) [] h =
    ap (◌∷◌ (if is_tool_result b then none else some b)) (places-refill bs [] h)
places-refill (b ∷ bs) (s ∷ ss) h = elim (Bool-cases (is_tool_result b)) [
  | inl t ↦ rw (t, h.0) (ap (◌∷◌ none) (places-refill bs ss h.1))
  | inr f ↦ rw (f, f) (ap (◌∷◌ (some b)) (places-refill bs (s ∷ ss) h))
]

tool_blocks-refill :
    (bs ss : List Block)
    → All (λ b. is_tool_result b ≡ true) ss
    → length ss ≡ length (tool_blocks bs)
    → tool_blocks (refill bs ss) ≡ ss
unfolding refill tool_blocks
tool_blocks-refill [] [] h len = refl
tool_blocks-refill [] (s ∷ ss) h len = absurd (omega arith)
tool_blocks-refill (b ∷ bs) [] h len = ground (arith, tool_blocks-refill bs [] h)
tool_blocks-refill (b ∷ bs) (s ∷ ss) h len = elim (Bool-cases (is_tool_result b)) [
  | inl t ↦ rw (t, h.0) (ap (◌∷◌ s) (tool_blocks-refill bs ss h.1 (ground arith)))
  | inr f ↦ rw (f, f) (tool_blocks-refill bs (s ∷ ss) h (ground arith))
]

-- the results of one rank, in their order
abbrev pub with_rank : Dict Text ℕ → ℕ → List Block → List Block
with_rank order k bs = keep (λ b. rank order b == k) bs

with_rank-insert :
    (order : Dict Text ℕ) (k : ℕ) (b : Block) (cs : List Block)
    → with_rank order k (insert_block order b cs) ≡ with_rank order k (b ∷ cs)
unfolding insert_block
with_rank-insert order k b [] = refl
with_rank-insert order k b (c ∷ cs) = ground (arith, with_rank-insert order k b cs)

with_rank-sort :
    (order : Dict Text ℕ) (k : ℕ) (bs : List Block)
    → with_rank order k (sort_blocks order bs) ≡ with_rank order k bs
unfolding sort_blocks
with_rank-sort order k [] = refl
with_rank-sort order k (b ∷ bs) =
    with_rank-insert order k b (sort_blocks order bs)
    ∙ ap (λ cs. if rank order b == k then b ∷ cs else cs) (with_rank-sort order k bs)

few-IsSorted : (order : Dict Text ℕ) (bs : List Block) → length bs ≤ 1 → IsSorted order bs
few-IsSorted order [] le = tt
few-IsSorted order (b ∷ []) le = (tt, tt)
few-IsSorted order (b ∷ c ∷ bs) le = absurd (omega arith)

rank-nil : (b : Block) → rank [] b ≡ 0
unfolding rank Dict.get
rank-nil (text_block t) = refl
rank-nil (tool_result id c) = refl
rank-nil (other_block t) = refl

unranked-IsSorted : (bs : List Block) → IsSorted [] bs
unranked-IsSorted [] = tt
unranked-IsSorted (b ∷ bs) = (all_zero b bs, unranked-IsSorted bs)
  where
    all_zero : (b : Block) (cs : List Block) → All (λ c. rank [] b ≤ rank [] c) cs
    all_zero b [] = tt
    all_zero b (c ∷ cs) = (ground (arith, rank-nil b), all_zero b cs)

-- After the results of a message are sorted, they stand in the order of their calls, those of one
-- call as they stood before, and every other block is where it was.
pub sort_results-IsSorted :
    (order : Dict Text ℕ) (bs : List Block) (k : ℕ)
    → IsSorted order (tool_blocks (sort_results order bs))
      × (with_rank order k (tool_blocks (sort_results order bs))
          ≡ with_rank order k (tool_blocks bs))
      × (places (sort_results order bs) ≡ places bs)
unfolding sort_results
sort_results-IsSorted [] bs k = elim (Bool-cases (ltb 1 (length (tool_blocks bs)))) [
  | inl t ↦ rw t (unranked-IsSorted (tool_blocks bs), refl, refl)
  | inr f ↦ rw f (unranked-IsSorted (tool_blocks bs), refl, refl)
]
sort_results-IsSorted (o ∷ order) bs k = elim (Bool-cases (ltb 1 (length (tool_blocks bs)))) [
  | inl t ↦
      let tools =
        sort_blocks-All (o ∷ order) (λ b. is_tool_result b ≡ true) (tool_blocks bs)
          (tool_blocks-All bs) in
      let same =
        tool_blocks-refill bs (sort_blocks (o ∷ order) (tool_blocks bs)) tools
          (sort_length (o ∷ order) (tool_blocks bs)) in
      rw (t, same)
        (
          sort_blocks-IsSorted (o ∷ order) (tool_blocks bs),
          with_rank-sort (o ∷ order) k (tool_blocks bs),
          places-refill bs (sort_blocks (o ∷ order) (tool_blocks bs)) tools,
        )
  | inr f ↦ rw f (few-IsSorted (o ∷ order) (tool_blocks bs) (ground arith), refl, refl)
]
