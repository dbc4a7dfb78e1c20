-- ===== src/Encoding/Render/Texts.antt =====
-- The texts of the parts of a message (encoding/dsv4.py): calls, tools, and the blocks of a user.
use pocket_mo_e.Prelude.{
  List, [], ◌∷◌, ◌++◌, map, Option, none, some, Bool, true, false, Result, ok, err, attribute_error,
  ◌>>=◌, list_eq, nat_eq, if◌then◌else◌,
}
use pocket_mo_e.Prelude.Text.{Text, codes, join_with}
use pocket_mo_e.Encoding.{
  Json, ToolCall, ContentPart, text_part, other_part, ToolContent, plain, parts, Block, text_block,
  tool_result, other_block, Message, Parameter,
}
use pocket_mo_e.Encoding.Templates.{tools_head, tools_tail, response_format_head}

-- `p_dsml_template`
abbrev pub parameter_text : Parameter → Text
parameter_text p =
    codes "<｜DSML｜parameter name=\""
    ++ (p.key
        ++ (codes "\" string=\""
            ++ ((if p.is_string then codes "true" else codes "false")
                ++ (codes "\">" ++ (p.value ++ codes "</｜DSML｜parameter>")))))

-- `tool_call_template`
abbrev pub tool_call_text : Text → Text → Text
tool_call_text name arguments =
    codes "<｜DSML｜invoke name=\""
    ++ (name ++ (codes "\">\n" ++ (arguments ++ codes "\n</｜DSML｜invoke>")))

-- `tool_calls_template` with the blank line before it
abbrev pub tool_calls_text : List Text → Text
tool_calls_text calls =
    codes "\n\n<｜DSML｜tool_calls>\n"
    ++ (join_with (codes "\n") calls ++ codes "\n</｜DSML｜tool_calls>")

-- the text of a field, `x or ""`
unfoldable pub or_empty : Option Text → Text
or_empty none = []
or_empty (some t) = t

content_part_text : ContentPart → Text
content_part_text (text_part t) = t
content_part_text (other_part kind) = codes "[Unsupported " ++ (kind ++ codes "]")

tool_content_text : ToolContent → Text
unfolding content_part_text
tool_content_text (plain t) = t
tool_content_text (parts ps) = join_with (codes "\n\n") (map content_part_text ps)

-- a block of a user's message
unfoldable pub block_text : Block → Text
unfolding tool_content_text
block_text (text_block t) = t
block_text (tool_result id c) =
    codes "<tool_result>" ++ (tool_content_text c ++ codes "</tool_result>")
block_text (other_block kind) = codes "[Unsupported " ++ (kind ++ codes "]")

unfoldable pub is_nil : {A : Type 0} → List A → Bool
is_nil [] = true
is_nil (x ∷ xs) = false

module _ {J : Type 0} (json : Json J) where
  -- the parameter of an argument
  unfoldable pub parameter_of : Text × J → Parameter
  parameter_of (k, v) = elim (json.as_text v) [
    | none ↦ record { key = k; is_string = false; value = json.dumps v }
    | some t ↦ record { key = k; is_string = true; value = t }
  ]

  -- the arguments of a call; a text that is no JSON is the one argument `arguments`
  unfoldable pub parameters_of : ToolCall → Result (List Parameter)
  unfolding parameter_of
  parameters_of tc = elim (json.loads tc.arguments) [
    | none ↦ ok (record { key = codes "arguments"; is_string = true; value = tc.arguments } ∷ [])
    | some j ↦ elim (json.items j) [
      | none ↦ err attribute_error
      | some kvs ↦ ok (map parameter_of kvs)
    ]
  ]

  -- `encode_arguments_to_dsml`
  unfoldable pub encode_arguments_to_dsml : ToolCall → Result Text
  unfolding parameters_of
  encode_arguments_to_dsml tc = do
    ps ← parameters_of tc
    ok (join_with (codes "\n") (map parameter_text ps))

  -- `tc_list`
  unfoldable pub tool_call_texts : List ToolCall → Result (List Text)
  unfolding encode_arguments_to_dsml
  tool_call_texts [] = ok []
  tool_call_texts (tc ∷ tcs) = do
    arguments ← encode_arguments_to_dsml tc
    rest ← tool_call_texts tcs
    ok (tool_call_text tc.name arguments ∷ rest)

  -- `tc_content`
  unfoldable pub tool_calls_content : List ToolCall → Result Text
  tool_calls_content [] = ok []
  tool_calls_content (tc ∷ tcs) = do texts ← tool_call_texts (tc ∷ tcs); ok (tool_calls_text texts)

  -- `render_tools`
  unfoldable pub render_tools : List J → Text
  render_tools ts = tools_head ++ (join_with (codes "\n") (map json.dumps ts) ++ tools_tail)

  -- the tools and the response format after the content of a message
  unfoldable pub tools_section : Message J → Text
  unfolding render_tools is_nil
  tools_section m =
      (if is_nil m.tools then [] else codes "\n\n" ++ render_tools m.tools)
      ++ elim m.response_format [
        | none ↦ []
        | some f ↦ codes "\n\n" ++ (response_format_head ++ json.dumps f)
      ]

  -- `content_blocks` joined, or the content
  unfoldable pub user_text : Message J → Text
  unfolding or_empty block_text
  user_text m = elim m.content_blocks [
    | none ↦ or_empty m.content
    | some [] ↦ or_empty m.content
    | some (b ∷ bs) ↦ join_with (codes "\n\n") (map block_text (b ∷ bs))
  ]
