-- ===== src/Encoding.antt =====
-- The chat format of DeepSeek-V4 (encoding/dsv4.py): its tokens, and what a message is. A field of
-- a message that a dictionary lacks is `none`, and no field is null. JSON is a parameter.
pub mod Templates
pub mod Messages
pub mod Render
pub mod Parse
pub mod Laws
use pocket_mo_e.Prelude.{ℕ, List, [], ◌∷◌, Option, none, some, Bool, true, false}
use pocket_mo_e.Prelude.Dict.{Dict}
use pocket_mo_e.Prelude.Text.{Text, codes}

-- `bos_token`
abbrev pub bos_token : Text
bos_token = codes "<｜begin▁of▁sentence｜>"

-- `eos_token`
abbrev pub eos_token : Text
eos_token = codes "<｜end▁of▁sentence｜>"

-- `thinking_start_token`
abbrev pub thinking_start_token : Text
thinking_start_token = codes "<think>"

-- `thinking_end_token`
abbrev pub thinking_end_token : Text
thinking_end_token = codes "</think>"

-- `dsml_token`
abbrev pub dsml_token : Text
dsml_token = codes "｜DSML｜"

-- `USER_SP_TOKEN`
abbrev pub user_sp_token : Text
user_sp_token = codes "<｜User｜>"

-- `ASSISTANT_SP_TOKEN`
abbrev pub assistant_sp_token : Text
assistant_sp_token = codes "<｜Assistant｜>"

-- `LATEST_REMINDER_SP_TOKEN`
abbrev pub latest_reminder_sp_token : Text
latest_reminder_sp_token = codes "<｜latest_reminder｜>"

-- `DS_TASK_SP_TOKENS`
abbrev pub ds_task_sp_tokens : Dict Text Text
ds_task_sp_tokens =
    (codes "action", codes "<｜action｜>")
    ∷ (codes "query", codes "<｜query｜>")
    ∷ (codes "authority", codes "<｜authority｜>")
    ∷ (codes "domain", codes "<｜domain｜>")
    ∷ (codes "title", codes "<｜title｜>")
    ∷ (codes "read_url", codes "<｜read_url｜>")
    ∷ []

-- What the program uses of the module json: `loads`, with none for an error, `dumps`, and what
-- `isinstance` and `items` say of a value; `items` is none for what is no dictionary.
pub record Json (J : Type 0) : Type 0 where
  pub loads : Text → Option J
  pub dumps : J → Text
  pub text_value : Text → J
  pub as_text : J → Option Text
  pub items : J → Option (List (Text × J))

-- A tool call in OpenAI's format: `tc["id"]` or that of its function, the name and the arguments.
pub record ToolCall : Type 0 where
  pub id : Text
  pub name : Text
  pub arguments : Text

-- the content of a tool's result: a text, or a list of texts and of other types
pub data ContentPart : Type 0 where
  text_part : Text → ContentPart
  other_part : Text → ContentPart

pub data ToolContent : Type 0 where
  plain : Text → ToolContent
  parts : List ContentPart → ToolContent

-- a block of a user's message; `tool_result` has its `tool_use_id`
pub data Block : Type 0 where
  text_block : Text → Block
  tool_result : Text → ToolContent → Block
  other_block : Text → Block

-- A message. `tools` are the functions of its tools; a list or a format that is empty
-- stands for none.
pub record Message (J : Type 0) : Type 0 where
  pub role : Text
  pub content : Option Text
  pub tools : List J
  pub response_format : Option J
  pub tool_calls : List ToolCall
  pub reasoning_content : Option Text
  pub wo_eos : Bool
  pub task : Option Text
  pub content_blocks : Option (List Block)
  pub tool_call_id : Text
  pub tool_content : ToolContent

-- A parameter as it is written and read: its name, whether it is a string, and its value.
pub record Parameter : Type 0 where
  pub key : Text
  pub is_string : Bool
  pub value : Text

-- A call as it is written and read: its name, and its parameters in order.
pub record Call : Type 0 where
  pub name : Text
  pub parameters : List Parameter
