-- ===== src/Encoding/Render.antt =====
-- The conversation as the text that the model reads (encoding/dsv4.py): `render_message` and
-- `encode_messages`.
mod Texts
unfoldable pub use Texts.*
use pocket_mo_e.Prelude.{
  ℕ, zero, suc, ◌-◌, List, [], ◌∷◌, ◌++◌, map, Option, none, some, Bool, true, false, not, ◌&&◌,
  ◌||◌, Result, ok, err, assertion_error, not_implemented, attribute_error, require, ◌>>=◌, ◌>>◌,
  any, drop, length, get_elem?, leb, list_eq, nat_eq, ◌==◌, if◌then◌else◌,
}
use pocket_mo_e.Prelude.Dict
use pocket_mo_e.Prelude.Text.{Text, codes, one_of, join_with}
use pocket_mo_e.Encoding.{
  Json, ToolCall, ContentPart, text_part, other_part, ToolContent, plain, parts, Block, text_block,
  tool_result, other_block, Message, Parameter, bos_token, eos_token, thinking_start_token,
  thinking_end_token, user_sp_token, assistant_sp_token, latest_reminder_sp_token,
  ds_task_sp_tokens,
}
use pocket_mo_e.Encoding.Templates.{
  reasoning_effort_max, tools_head, tools_tail, response_format_head,
}
use pocket_mo_e.Encoding.Messages.{
  user, assistant, developer, is_user_or_developer, last_user_end, merge_tool_messages,
  sort_tool_results_by_call_order, drop_thinking_messages,
}

is_thinking : Text → Bool
is_thinking mode = mode == codes "thinking"

has_task : Option Text → Bool
has_task none = false
has_task (some t) = true

-- the token of a task; an unknown one fails the assertion
task_tokens : Text → Text → Result Text
unfolding is_thinking
task_tokens mode task = elim (Dict.get task ds_task_sp_tokens) [
  | none ↦ err assertion_error
  | some token ↦
      if task == codes "action"
      then ok (
          assistant_sp_token
          ++ ((if is_thinking mode then thinking_start_token else thinking_end_token) ++ token))
      else ok token
]

module _ {J : Type 0} (json : Json J) where
  -- what an assistant's message renders to; `thinks` says whether its reasoning is kept
  unfoldable pub assistant_text : Bool → Message J → Result Text
  unfolding or_empty
  assistant_text thinks m = do
    calls ← tool_calls_content json m.tool_calls
    let thinking = if thinks then or_empty m.reasoning_content ++ thinking_end_token else []
    let stop = if m.wo_eos then [] else eos_token
    ok (thinking ++ (or_empty m.content ++ (calls ++ stop)))

  -- the text of a message by its role
  unfoldable pub role_text : Bool → Message J → Result Text
  unfolding or_empty tools_section user_text assistant_text is_nil
  role_text thinks m =
      let says = m.role in
      if says == codes "system"
      then ok (or_empty m.content ++ tools_section json m)
      else if says == developer
      then require (not (is_nil (or_empty m.content))) assertion_error
        >> ok (user_sp_token ++ (or_empty m.content ++ tools_section json m))
      else if says == user
      then ok (user_sp_token ++ user_text json m)
      else if says == codes "latest_reminder"
      then ok (latest_reminder_sp_token ++ elim m.content [ none ↦ codes "None" | some t ↦ t ])
      else if says == assistant
      then assistant_text thinks m
      else err not_implemented

  -- what follows a message: the token of its task, or those that open an answer
  unfoldable pub transition : Text → Bool → Bool → Message J → Result Text
  unfolding is_thinking is_user_or_developer task_tokens
  transition mode drops last m = elim m.task [
    | some task ↦ task_tokens mode task
    | none ↦
        if is_user_or_developer m.role
        then ok (
            assistant_sp_token
            ++ (if is_thinking mode && (not drops || last)
                then thinking_start_token
                else thinking_end_token))
        else ok []
  ]

  -- the next message, if there is one, is no answer and no reminder
  stops_here : ℕ → List (Message J) → Bool
  stops_here index ms = elim (get_elem? ms (suc index)) [
    | none ↦ false
    | some next ↦ not (one_of next.role (assistant ∷ codes "latest_reminder" ∷ []))
  ]

  prev_has_task : ℕ → List (Message J) → Bool
  unfolding has_task
  prev_has_task zero ms = false
  prev_has_task (suc i) ms = elim (get_elem? ms i) [ none ↦ false | some m ↦ has_task m.task ]

  is_effort : Option Text → Bool
  is_effort none = true
  is_effort (some effort) =
      one_of effort
        (codes "max" ∷ codes "minimal" ∷ codes "low" ∷ codes "medium" ∷ codes "high" ∷ [])

  is_max : Option Text → Bool
  is_max none = false
  is_max (some effort) = effort == codes "max"

  -- `render_message`
  unfoldable pub render_message : ℕ → List (Message J) → Text → Bool → Option Text → Result Text
  unfolding is_thinking is_effort is_max prev_has_task role_text stops_here transition last_user_end
  render_message index ms mode drops effort = elim (get_elem? ms index) [
    | none ↦ err assertion_error
    | some m ↦ do
      require (one_of mode (codes "chat" ∷ codes "thinking" ∷ [])) assertion_error
      require (is_effort effort) assertion_error
      let thinks =
          is_thinking mode
          && (not (prev_has_task index ms) && (not drops || leb (last_user_end ms) index))
      text ← role_text thinks m
      let prefix =
          if index == 0 && (is_thinking mode && is_max effort) then reasoning_effort_max else []
      ending ←
          if stops_here index ms
          then ok []
          else transition mode drops (leb (last_user_end ms) (suc index)) m
      ok (prefix ++ (text ++ ending))
  ]

  -- the messages from `index` on, `count` of them
  unfoldable pub render_from :
      ℕ → ℕ → List (Message J) → Text → Bool → Option Text → Text → Result Text
  unfolding render_message
  render_from zero index ms mode drops effort prompt = ok prompt
  render_from (suc count) index ms mode drops effort prompt = do
    text ← render_message index ms mode drops effort
    render_from count (suc index) ms mode drops effort (prompt ++ text)

  -- whether a message has tools
  has_tools : Message J → Bool
  unfolding is_nil
  has_tools m = not (is_nil m.tools)

  -- The messages and the context after the two passes, the messages second.
  unfoldable pub prepare : List (Message J) → List (Message J) → List (Message J) × List (Message J)
  unfolding merge_tool_messages sort_tool_results_by_call_order
  prepare ms context =
      let merged = merge_tool_messages ms in
      (
        sort_tool_results_by_call_order (merge_tool_messages context),
        drop (length context) (sort_tool_results_by_call_order (context ++ merged)),
      )

  -- `encode_messages`
  unfoldable pub encode_messages :
      List (Message J) → Text → List (Message J) → Bool → Bool → Option Text → Result Text
  unfolding prepare has_tools is_nil is_thinking render_from drop_thinking_messages
  encode_messages ms mode context drop_thinking add_bos effort =
      let p = prepare ms context in
      let full = p.0 ++ p.1 in
      let prompt = if add_bos && is_nil p.0 then bos_token else [] in
      let drops = drop_thinking && not (any has_tools full) in
      if is_thinking mode && drops
      then (let kept = drop_thinking_messages full in
          let before = length (drop_thinking_messages p.0) in
          let count = length kept - before in
          render_from count (length kept - count) kept mode drops effort prompt)
      else render_from (length p.1) (length p.0) full mode drops effort prompt
