-- ===== src/Encoding/Laws/Merged.antt =====
-- The whole of `merge_tool_messages` (encoding/dsv4.py), from its turns.
use mathlib.Core.List.{append_assoc, append-nil, reverse_aux}
use pocket_mo_e.Prelude.{
  List, [], ◌∷◌, ◌++◌, true, not, ◌≡◌, refl, ap, sym, ◌∙◌, all, list_eq, nat_eq, ◌==◌, arith,
}
use pocket_mo_e.Encoding.{Message}
use pocket_mo_e.Encoding.Messages.{tool, merge_one, merge_from, merge_tool_messages}
use pocket_mo_e.Encoding.Laws.Merge.{
  user_blocks, all_blocks, given, all_given, others, gathered, kept, none_of_tool, merge_one-blocks,
  merge_one-kept, merge_one-tools,
}

module _ {J : Type 0} where
  all_blocks-append :
      (xs ys : List (Message J)) → all_blocks (xs ++ ys) ≡ all_blocks xs ++ all_blocks ys
  all_blocks-append [] ys = refl
  all_blocks-append (m ∷ xs) ys =
      ap (◌++◌ (user_blocks m)) (all_blocks-append xs ys)
      ∙ sym (append_assoc (user_blocks m) (all_blocks xs) (all_blocks ys))

  -- the messages in their order again
  all_blocks-reverse :
      (merged rest : List (Message J))
      → all_blocks (reverse_aux merged rest) ≡ gathered merged ++ all_blocks rest
  all_blocks-reverse [] rest = refl
  all_blocks-reverse (m ∷ merged) rest =
      all_blocks-reverse merged (m ∷ rest)
      ∙ sym (append_assoc (gathered merged) (user_blocks m) (all_blocks rest))

  others-cons :
      (m : Message J) (ms : List (Message J)) → others (m ∷ ms) ≡ others (m ∷ []) ++ others ms
  others-cons m ms = ground arith

  others-reverse :
      (merged rest : List (Message J))
      → others (reverse_aux merged rest) ≡ kept merged ++ others rest
  others-reverse [] rest = refl
  others-reverse (m ∷ merged) rest =
      others-reverse merged (m ∷ rest)
      ∙ ap (◌++◌ (kept merged)) (others-cons m rest)
      ∙ sym (append_assoc (kept merged) (others (m ∷ [])) (others rest))

  none_of_tool-reverse :
      (merged rest : List (Message J))
      → none_of_tool merged ≡ true
      → none_of_tool rest ≡ true
      → none_of_tool (reverse_aux merged rest) ≡ true
  none_of_tool-reverse [] rest h k = k
  none_of_tool-reverse (m ∷ merged) rest h k =
      none_of_tool-reverse merged (m ∷ rest) (ground arith) (ground arith)

  merge_from-blocks :
      (ms merged : List (Message J))
      → gathered (merge_from ms merged) ≡ gathered merged ++ all_given ms
  unfolding merge_from
  merge_from-blocks [] merged = sym (append-nil (gathered merged))
  merge_from-blocks (m ∷ ms) merged =
      merge_from-blocks ms (merge_one m merged)
      ∙ ap (λ bs. bs ++ all_given ms) (merge_one-blocks m merged)
      ∙ append_assoc (gathered merged) (given m) (all_given ms)

  merge_from-kept :
      (ms merged : List (Message J)) → kept (merge_from ms merged) ≡ kept merged ++ others ms
  unfolding merge_from
  merge_from-kept [] merged = sym (append-nil (kept merged))
  merge_from-kept (m ∷ ms) merged =
      merge_from-kept ms (merge_one m merged)
      ∙ ap (λ xs. xs ++ others ms) (merge_one-kept m merged)
      ∙ append_assoc (kept merged) (others (m ∷ [])) (others ms)
      ∙ ap (◌++◌ (kept merged)) (sym (others-cons m ms))

  merge_from-tools :
      (ms merged : List (Message J))
      → none_of_tool merged ≡ true
      → none_of_tool (merge_from ms merged) ≡ true
  unfolding merge_from
  merge_from-tools [] merged h = h
  merge_from-tools (m ∷ ms) merged h =
      merge_from-tools ms (merge_one m merged) (merge_one-tools m merged h)

  -- Merging leaves no message of a tool; the blocks of the user's messages are then the results of
  -- the tools and the texts of the user in their order, and the other messages are as they were.
  pub merge_tool_messages_lem :
      (ms : List (Message J))
      → (all_blocks (merge_tool_messages ms) ≡ all_given ms)
        × (others (merge_tool_messages ms) ≡ others ms)
        × (all (λ m. not (m.role == tool)) (merge_tool_messages ms) ≡ true)
  unfolding merge_tool_messages
  merge_tool_messages_lem ms = (
    all_blocks-reverse (merge_from ms []) []
        ∙ append-nil (gathered (merge_from ms []))
        ∙ merge_from-blocks ms [],
    others-reverse (merge_from ms []) []
        ∙ append-nil (kept (merge_from ms []))
        ∙ merge_from-kept ms [],
    none_of_tool-reverse (merge_from ms []) [] (merge_from-tools ms [] refl) refl,
  )
