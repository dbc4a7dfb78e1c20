-- ===== src/Encoding/Laws/Merge.antt =====
-- Merging the messages of the tools into those of the user (encoding/dsv4.py): `merge_tool_messages`.
use mathlib.Core.List.{append_assoc, append-nil}
use pocket_mo_e.Prelude.{
  List, [], ◌∷◌, ◌++◌, Bool, true, false, not, ◌&&◌, inl, inr, ◌≡◌, refl, ap, sym, ◌∙◌, all, keep,
  list_eq, nat_eq, ◌==◌, eq_of_beq, if◌then◌else◌, Bool-cases, arith,
}
use pocket_mo_e.Encoding.{Block, text_block, Message}
use pocket_mo_e.Encoding.Messages.{
  user, tool, text_of, blocks_of, block_of, add_block, new_user, takes_tool, takes_text, merge_tool,
  merge_user, merge_one,
}

module _ {J : Type 0} where
  -- the blocks of a merged message
  abbrev pub user_blocks : Message J → List Block
  user_blocks m = if m.role == user then blocks_of m.content_blocks else []

  abbrev pub all_blocks : List (Message J) → List Block
  all_blocks [] = []
  all_blocks (m ∷ ms) = user_blocks m ++ all_blocks ms

  -- the block that a message to merge stands for
  abbrev pub given : Message J → List Block
  given m =
      if m.role == tool
      then block_of m ∷ []
      else if m.role == user
      then text_block (text_of m.content) ∷ []
      else []

  abbrev pub all_given : List (Message J) → List Block
  all_given [] = []
  all_given (m ∷ ms) = given m ++ all_given ms

  -- the messages that merging does not touch
  abbrev pub others : List (Message J) → List (Message J)
  others ms = keep (λ m. not (m.role == user) && not (m.role == tool)) ms

  -- the blocks of the messages so far, the last message first
  abbrev pub gathered : List (Message J) → List Block
  gathered [] = []
  gathered (m ∷ ms) = gathered ms ++ user_blocks m

  takes_tool-user : (l : Message J) → takes_tool l ≡ true → (l.role == user) ≡ true
  unfolding takes_tool
  takes_tool-user l h = ground arith

  takes_text-user : (l : Message J) → takes_text l ≡ true → (l.role == user) ≡ true
  unfolding takes_text takes_tool
  takes_text-user l h = ground arith

  -- A block that is added to the last message comes last.
  gathered-add :
      (b : Block) (l : Message J) (ls : List (Message J))
      → (l.role == user) ≡ true
      → gathered (add_block b l ∷ ls) ≡ gathered (l ∷ ls) ++ b ∷ []
  unfolding add_block blocks_of
  gathered-add b l ls h =
      rw h (sym (append_assoc (gathered ls) (blocks_of l.content_blocks) (b ∷ [])))

  merge_tool-blocks :
      (m : Message J) (merged : List (Message J))
      → gathered (merge_tool m merged) ≡ gathered merged ++ block_of m ∷ []
  unfolding merge_tool blocks_of
  merge_tool-blocks m [] = refl
  merge_tool-blocks m (l ∷ ls) = elim (Bool-cases (takes_tool l)) [
    | inl t ↦ rw t (gathered-add (block_of m) l ls (takes_tool-user l t))
    | inr f ↦ rw f refl
  ]

  merge_user-blocks :
      (m : Message J) (merged : List (Message J))
      → gathered (merge_user m merged) ≡ gathered merged ++ text_block (text_of m.content) ∷ []
  unfolding merge_user new_user blocks_of
  merge_user-blocks m [] = refl
  merge_user-blocks m (l ∷ ls) = elim (Bool-cases (takes_text l)) [
    | inl t ↦ rw t (gathered-add (text_block (text_of m.content)) l ls (takes_text-user l t))
    | inr f ↦ rw f refl
  ]

  user_blocks-nil : (m : Message J) → (m.role == user) ≡ false → user_blocks m ≡ []
  user_blocks-nil m h = rw h refl

  pub merge_one-blocks :
      (m : Message J) (merged : List (Message J))
      → gathered (merge_one m merged) ≡ gathered merged ++ given m
  unfolding merge_one
  merge_one-blocks m merged = elim (Bool-cases (m.role == tool)) [
    | inl t ↦ rw t (merge_tool-blocks m merged)
    | inr f ↦ elim (Bool-cases (m.role == user)) [
      | inl t ↦ rw (f, t) (merge_user-blocks m merged)
      | inr g ↦ rw (f, g) (ap (◌++◌ (gathered merged)) (user_blocks-nil m g))
    ]
  ]

  -- the same for what merging leaves alone, and for the messages of tools, of which none is left
  abbrev pub kept : List (Message J) → List (Message J)
  kept [] = []
  kept (m ∷ ms) = kept ms ++ others (m ∷ [])

  abbrev pub none_of_tool : List (Message J) → Bool
  none_of_tool ms = all (λ m. not (m.role == tool)) ms

  user-not-tool : (l : Message J) → (l.role == user) ≡ true → (l.role == tool) ≡ false
  user-not-tool l h = rw (eq_of_beq l.role user h) refl

  add_block-others :
      (b : Block) (l : Message J)
      → (l.role == user) ≡ true
      → others (add_block b l ∷ []) ≡ others (l ∷ [])
  unfolding add_block
  add_block-others b l h = rw h refl

  merge_tool-kept :
      (m : Message J) (merged : List (Message J)) → kept (merge_tool m merged) ≡ kept merged
  unfolding merge_tool
  merge_tool-kept m [] = refl
  merge_tool-kept m (l ∷ ls) = elim (Bool-cases (takes_tool l)) [
    | inl t ↦ rw t (ap (◌++◌ (kept ls)) (add_block-others (block_of m) l (takes_tool-user l t)))
    | inr f ↦ rw f (append-nil (kept (l ∷ ls)))
  ]

  merge_user-kept :
      (m : Message J) (merged : List (Message J)) → kept (merge_user m merged) ≡ kept merged
  unfolding merge_user new_user
  merge_user-kept m [] = refl
  merge_user-kept m (l ∷ ls) = elim (Bool-cases (takes_text l)) [
    | inl t ↦ rw t (
        ap (◌++◌ (kept ls))
          (add_block-others (text_block (text_of m.content)) l (takes_text-user l t)))
    | inr f ↦ rw f (append-nil (kept (l ∷ ls)))
  ]

  no_tool : (m : Message J) → (m.role == tool) ≡ true → [] ≡ others (m ∷ [])
  no_tool m h = ground arith

  no_user : (m : Message J) → (m.role == user) ≡ true → [] ≡ others (m ∷ [])
  no_user m h = ground arith

  other :
      (m : Message J)
      → (m.role == tool) ≡ false
      → (m.role == user) ≡ false
      → m ∷ [] ≡ others (m ∷ [])
  other m f g = ground arith

  merge_one-tool :
      (m : Message J) (merged : List (Message J))
      → (m.role == tool) ≡ true
      → merge_one m merged ≡ merge_tool m merged
  unfolding merge_one
  merge_one-tool m merged h = rw h refl

  merge_one-user :
      (m : Message J) (merged : List (Message J))
      → (m.role == tool) ≡ false
      → (m.role == user) ≡ true
      → merge_one m merged ≡ merge_user m merged
  unfolding merge_one
  merge_one-user m merged f h = rw (f, h) refl

  merge_one-other :
      (m : Message J) (merged : List (Message J))
      → (m.role == tool) ≡ false
      → (m.role == user) ≡ false
      → merge_one m merged ≡ m ∷ merged
  unfolding merge_one
  merge_one-other m merged f g = rw (f, g) refl

  pub merge_one-kept :
      (m : Message J) (merged : List (Message J))
      → kept (merge_one m merged) ≡ kept merged ++ others (m ∷ [])
  merge_one-kept m merged = elim (Bool-cases (m.role == tool)) [
    | inl t ↦
        ap kept (merge_one-tool m merged t)
        ∙ merge_tool-kept m merged
        ∙ sym (append-nil (kept merged))
        ∙ ap (◌++◌ (kept merged)) (no_tool m t)
    | inr f ↦ elim (Bool-cases (m.role == user)) [
      | inl t ↦
          ap kept (merge_one-user m merged f t)
          ∙ merge_user-kept m merged
          ∙ sym (append-nil (kept merged))
          ∙ ap (◌++◌ (kept merged)) (no_user m t)
      | inr g ↦ ap kept (merge_one-other m merged f g)
    ]
  ]

  pub merge_one-tools :
      (m : Message J) (merged : List (Message J))
      → none_of_tool merged ≡ true
      → none_of_tool (merge_one m merged) ≡ true
  unfolding merge_one merge_tool merge_user new_user add_block
  merge_one-tools m [] h = ground arith
  merge_one-tools m (l ∷ ls) h = ground arith
