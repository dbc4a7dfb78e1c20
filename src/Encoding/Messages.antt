-- ===== src/Encoding/Messages.antt =====
-- The passes over a conversation before it is rendered (encoding/dsv4.py): `merge_tool_messages`,
-- `sort_tool_results_by_call_order`, `find_last_user_index` and `_drop_thinking_messages`.
use pocket_mo_e.Prelude.{
  ℕ, suc, List, [], ◌∷◌, ◌++◌, Option, none, some, Bool, true, false, not, ◌&&◌, ◌||◌, leb, ltb,
  length, list_eq, nat_eq, ◌==◌, if◌then◌else◌,
}
use mathlib.Core.List.{reverse}
use pocket_mo_e.Prelude.Dict
use pocket_mo_e.Prelude.Dict.{Dict}
use pocket_mo_e.Prelude.Text.{Text, codes, one_of}
use pocket_mo_e.Encoding.{ToolCall, plain, Block, text_block, tool_result, other_block, Message}

abbrev pub user : Text
user = codes "user"

abbrev pub assistant : Text
assistant = codes "assistant"

abbrev pub developer : Text
developer = codes "developer"

abbrev pub tool : Text
tool = codes "tool"

unfoldable pub is_user_or_developer : Text → Bool
is_user_or_developer role = one_of role (user ∷ developer ∷ [])

-- A tool's message gives a `tool_result` of its content.
unfoldable pub block_of : {J : Type 0} → Message J → Block
block_of m = tool_result m.tool_call_id m.tool_content

unfoldable pub text_of : Option Text → Text
text_of none = []
text_of (some t) = t

unfoldable pub blocks_of : Option (List Block) → List Block
blocks_of none = []
blocks_of (some bs) = bs

is_none : Option Text → Bool
is_none none = true
is_none (some t) = false

module _ {J : Type 0} where
  -- One more than `find_last_user_index`, so that 0 stands for its -1.
  unfoldable pub last_user_end : List (Message J) → ℕ
  last_user_end [] = 0
  last_user_end (m ∷ ms) =
      let rest = last_user_end ms in
      if rest == 0 then (if is_user_or_developer m.role then 1 else 0) else suc rest

  unfoldable pub has_blocks : Message J → Bool
  has_blocks m = elim m.content_blocks [ none ↦ false | some bs ↦ true ]

  -- `merged[-1]["content_blocks"].append(block)`
  unfoldable pub add_block : Block → Message J → Message J
  unfolding blocks_of
  add_block b m = record m { content_blocks = some (blocks_of m.content_blocks ++ b ∷ []) }

  -- a message of a user with one block and nothing else
  abbrev pub user_message : Block → Message J
  user_message b = record {
    role = user;
    content = none;
    tools = [];
    response_format = none;
    tool_calls = [];
    reasoning_content = none;
    wo_eos = false;
    task = none;
    content_blocks = some (b ∷ []);
    tool_call_id = [];
    tool_content = plain [];
  }

  unfoldable pub new_user : Message J → Message J
  unfolding text_of
  new_user m = record (user_message (text_block (text_of m.content))) {
    content = some (text_of m.content);
    wo_eos = m.wo_eos;
    task = m.task;
  }

  unfoldable pub takes_tool : Message J → Bool
  unfolding has_blocks
  takes_tool m = m.role == user && has_blocks m

  unfoldable pub takes_text : Message J → Bool
  unfolding is_none
  takes_text m = takes_tool m && is_none m.task

  -- The messages merged so far stand in reverse, the last first.
  unfoldable pub merge_tool : Message J → List (Message J) → List (Message J)
  merge_tool m [] = user_message (block_of m) ∷ []
  merge_tool m (l ∷ ls) =
      if takes_tool l then add_block (block_of m) l ∷ ls else user_message (block_of m) ∷ (l ∷ ls)

  unfoldable pub merge_user : Message J → List (Message J) → List (Message J)
  unfolding text_of
  merge_user m [] = new_user m ∷ []
  merge_user m (l ∷ ls) =
      if takes_text l
      then add_block (text_block (text_of m.content)) l ∷ ls
      else new_user m ∷ (l ∷ ls)

  -- a turn of the loop of `merge_tool_messages`
  unfoldable pub merge_one : Message J → List (Message J) → List (Message J)
  merge_one m merged =
      if m.role == tool
      then merge_tool m merged
      else if m.role == user
      then merge_user m merged
      else m ∷ merged

  unfoldable pub merge_from : List (Message J) → List (Message J) → List (Message J)
  merge_from [] merged = merged
  merge_from (m ∷ ms) merged = merge_from ms (merge_one m merged)

  -- `merge_tool_messages`
  unfoldable pub merge_tool_messages : List (Message J) → List (Message J)
  merge_tool_messages ms = reverse (merge_from ms [])

-- `last_tool_call_order` for the calls of one message, from index `i`
unfoldable pub order_from : ℕ → List ToolCall → Dict Text ℕ → Dict Text ℕ
order_from i [] order = order
order_from i (tc ∷ tcs) order =
    order_from (suc i) tcs (if tc.id == [] then order else Dict.put tc.id i order)

position : Dict Text ℕ → Text → ℕ
position order id = elim (Dict.get id order) [ none ↦ 0 | some i ↦ i ]

-- the key of the sort
unfoldable pub rank : Dict Text ℕ → Block → ℕ
unfolding position
rank order (text_block t) = position order []
rank order (tool_result id c) = position order id
rank order (other_block t) = position order []

unfoldable pub is_tool_result : Block → Bool
is_tool_result (text_block t) = false
is_tool_result (tool_result id c) = true
is_tool_result (other_block t) = false

unfoldable pub tool_blocks : List Block → List Block
tool_blocks [] = []
tool_blocks (b ∷ bs) = let rest = tool_blocks bs in if is_tool_result b then b ∷ rest else rest

-- `sorted`, which is stable
unfoldable pub insert_block : Dict Text ℕ → Block → List Block → List Block
insert_block order b [] = b ∷ []
insert_block order b (c ∷ cs) =
    let rest = insert_block order b cs in
    if leb (rank order b) (rank order c) then b ∷ (c ∷ cs) else c ∷ rest

unfoldable pub sort_blocks : Dict Text ℕ → List Block → List Block
sort_blocks order [] = []
sort_blocks order (b ∷ bs) = insert_block order b (sort_blocks order bs)

-- The loop that builds `new_blocks`: each `tool_result` makes way for the next sorted one.
unfoldable pub refill : List Block → List Block → List Block
refill [] sorted = []
refill (b ∷ bs) [] = b ∷ refill bs []
refill (b ∷ bs) (s ∷ ss) = if is_tool_result b then s ∷ refill bs ss else b ∷ refill bs (s ∷ ss)

is_empty : {A : Type 0} → List A → Bool
is_empty [] = true
is_empty (x ∷ xs) = false

-- what happens to the blocks of one message
unfoldable pub sort_results : Dict Text ℕ → List Block → List Block
unfolding is_empty
sort_results order bs =
    if ltb 1 (length (tool_blocks bs)) && not (is_empty order)
    then refill bs (sort_blocks order (tool_blocks bs))
    else bs

module _ {J : Type 0} where
  sort_message : Dict Text ℕ → Message J → Message J
  sort_message order m = elim m.content_blocks [
    | none ↦ m
    | some bs ↦ record m { content_blocks = some (sort_results order bs) }
  ]

  -- the loop of `sort_tool_results_by_call_order`
  unfoldable pub sort_from : Dict Text ℕ → List (Message J) → List (Message J)
  unfolding sort_message is_empty
  sort_from order [] = []
  sort_from order (m ∷ ms) =
      if m.role == assistant && not (is_empty m.tool_calls)
      then m ∷ sort_from (order_from 0 m.tool_calls []) ms
      else if m.role == user
      then sort_message order m ∷ sort_from order ms
      else m ∷ sort_from order ms

  -- `sort_tool_results_by_call_order`
  unfoldable pub sort_tool_results_by_call_order : List (Message J) → List (Message J)
  sort_tool_results_by_call_order ms = sort_from [] ms

  -- the loop of `_drop_thinking_messages` from index `i`; the last user's is `last`, plus one
  unfoldable pub drop_from : ℕ → ℕ → List (Message J) → List (Message J)
  drop_from last i [] = []
  drop_from last i (m ∷ ms) =
      let rest = drop_from last (suc i) ms in
      if one_of m.role (
          user
          ∷ codes "system"
          ∷ tool
          ∷ codes "latest_reminder"
          ∷ codes "direct_search_results"
          ∷ [])
        || leb last (suc i)
      then m ∷ rest
      else if m.role == assistant
      then record m { reasoning_content = none } ∷ rest
      else rest

  -- `_drop_thinking_messages`
  unfoldable pub drop_thinking_messages : List (Message J) → List (Message J)
  drop_thinking_messages ms = drop_from (last_user_end ms) 0 ms
