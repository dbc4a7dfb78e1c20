-- ===== src/Tests/Chats.antt =====
-- The theorems on the chat format at concrete inputs.
use pocket_mo_e.Prelude.{
  ℕ, List, [], ◌∷◌, ◌++◌, Option, none, some, true, false, not, Result, ok, ◌≡◌, refl, all, list_eq,
  nat_eq, ◌==◌, if◌then◌else◌,
}
use pocket_mo_e.Prelude.Dict.{Dict}
use pocket_mo_e.Prelude.Text.{Text, codes, contains, starts_with, join_with, one_of}
use pocket_mo_e.Encoding.{Json, plain, Block, text_block, tool_result, Message}
use pocket_mo_e.Encoding.Messages.{
  assistant, developer, tool, user_message, tool_blocks, sort_results, merge_tool_messages,
  merge_from, merge_one, merge_tool, merge_user, new_user, text_of, takes_tool, takes_text,
  has_blocks, add_block, blocks_of, sort_from, last_user_end, drop_from,
}
use pocket_mo_e.Encoding.Parse.{
  Completion, decode_dsml_to_arguments, decode_value, parse_completion,
  parse_message_from_completion_text, is_clean,
}
use pocket_mo_e.Encoding.Render.{assistant_text, parameters_of, or_empty, encode_messages}
use pocket_mo_e.Encoding.Laws.Calls.{distinct_keys}
use pocket_mo_e.Encoding.Laws.RoundTrip.{parse_message-assistant_text}
use pocket_mo_e.Encoding.Laws.Fuel.{parse_message_terminates}
use pocket_mo_e.Encoding.Laws.Passes.{IsSorted, places, with_rank, sort_results-IsSorted}
use pocket_mo_e.Encoding.Laws.Merge.{all_blocks, all_given, others}
use pocket_mo_e.Encoding.Laws.Merged.{merge_tool_messages_lem}

-- values that are texts, or objects of texts
data Value : Type 0 where
  word : Text → Value
  object : List (Text × Text) → Value

words : List (Text × Text) → List (Text × Value)
words [] = []
words ((k, t) ∷ kvs) = (k, word t) ∷ words kvs

abbrev quoted : Text → Text
quoted t = codes "\"" ++ (t ++ codes "\"")

dump : Value → Text
dump (word t) = quoted t
dump (object kvs) = codes "{}"

value_text : Value → Option Text
value_text (word t) = some t
value_text (object kvs) = none

value_items : Value → Option (List (Text × Value))
unfolding words
value_items (word t) = none
value_items (object kvs) = some (words kvs)

-- a reader that knows one object
abbrev small_json : Json Value
small_json = record {
  loads = λ t.
      if t == codes "{\"city\": \"Rome\"}"
      then some (object ((codes "city", codes "Rome") ∷ []))
      else none;
  dumps = dump;
  text_value = word;
  as_text = value_text;
  items = value_items;
}

abbrev answer : Message Value
answer = record (user_message (text_block [])) {
  role = assistant;
  content = some (codes "Let me look.");
  reasoning_content = some (codes "Where?");
  tool_calls =
      record { id = codes "1"; name = codes "weather"; arguments = codes "{\"city\": \"Rome\"}" }
      ∷ record { id = codes "2"; name = codes "say"; arguments = codes "<hello" }
      ∷ [];
}

parse_message-assistant_text_example :
    (text : Text) × (assistant_text small_json true answer ≡ ok text)
    × (parse_completion true text
        ≡ some (
            ok (record {
              content = codes "Let me look.";
              reasoning_content = codes "Where?";
              tool_calls =
                  record {
                    name = codes "weather";
                    parameters =
                        record { key = codes "city"; is_string = true; value = codes "Rome" } ∷ [];
                  }
                  ∷ record {
                    name = codes "say";
                    parameters =
                        record { key = codes "arguments"; is_string = true; value = codes "<hello" }
                        ∷ [];
                  }
                  ∷ [];
            })))
    × (parse_message_from_completion_text small_json true text
        ≡ some (
            ok (record {
              content = codes "Let me look.";
              reasoning_content = codes "Where?";
              tool_calls =
                  (codes "weather", codes "{\"city\": \"Rome\"}")
                  ∷ (codes "say", codes "{\"arguments\": \"<hello\"}")
                  ∷ [];
            })))
unfolding join_with decode_dsml_to_arguments decode_value dump parameters_of value_items value_text
    contains starts_with distinct_keys is_clean or_empty
parse_message-assistant_text_example =
    parse_message-assistant_text small_json true answer
      (record {
        name = codes "weather";
        parameters = record { key = codes "city"; is_string = true; value = codes "Rome" } ∷ [];
      }
        ∷ record {
          name = codes "say";
          parameters =
              record { key = codes "arguments"; is_string = true; value = codes "<hello" } ∷ [];
        }
        ∷ [])
      refl refl
      ((refl, ((refl, refl, refl), tt), refl), ((refl, ((refl, refl, refl), tt), refl), tt)) refl
      refl

parse_message_terminates_example :
    (r : Result Completion) × (parse_message_from_completion_text small_json false
        (codes "\n\n<｜DSML｜tool_calls>\n<｜DSML｜invoke")
      ≡ some r)
parse_message_terminates_example =
    parse_message_terminates small_json false (codes "\n\n<｜DSML｜tool_calls>\n<｜DSML｜invoke")

abbrev call_order : Dict Text ℕ
call_order = (codes "a", 0) ∷ (codes "b", 1) ∷ []

abbrev mixed_blocks : List Block
mixed_blocks =
    tool_result (codes "b") (plain (codes "2"))
    ∷ text_block (codes "and")
    ∷ tool_result (codes "a") (plain (codes "1"))
    ∷ []

sort_results-IsSorted_example :
    IsSorted call_order (tool_blocks (sort_results call_order mixed_blocks))
    × (with_rank call_order 1 (tool_blocks (sort_results call_order mixed_blocks))
        ≡ with_rank call_order 1 (tool_blocks mixed_blocks))
    × (places (sort_results call_order mixed_blocks) ≡ places mixed_blocks)
sort_results-IsSorted_example = sort_results-IsSorted call_order mixed_blocks 1

abbrev tool_message : Text → Message Value
tool_message t = record (user_message (text_block [])) {
  role = tool;
  content_blocks = none;
  tool_content = plain t;
}

abbrev said : Text → Message Value
said t = record (user_message (text_block [])) { content = some t; content_blocks = none }

abbrev conversation : List (Message Value)
conversation =
    answer ∷ tool_message (codes "sunny") ∷ tool_message (codes "ok") ∷ said (codes "So?") ∷ []

merge_tool_messages_lem_example :
    (all_blocks (merge_tool_messages conversation) ≡ all_given conversation)
    × (others (merge_tool_messages conversation) ≡ others conversation)
    × (all (λ m. not (m.role == tool)) (merge_tool_messages conversation) ≡ true)
merge_tool_messages_lem_example = merge_tool_messages_lem conversation

-- After a context of one message of a developer, which is dropped, a question is not rendered.
unrendered_question :
    encode_messages small_json
      (said (codes "Now?") ∷ [])
      (codes "thinking")
      (record (said (codes "Be short.")) { role = developer } ∷ [])
      true
      true
      none
    ≡ ok []
unfolding encode_messages merge_one merge_tool merge_user new_user text_of takes_tool takes_text
    has_blocks add_block blocks_of sort_from merge_from last_user_end drop_from one_of
unrendered_question = refl
