-- ===== src/Encoding/Templates.antt =====
-- The texts of the DeepSeek-V4 chat format (encoding/dsv4.py), with the tokens put in.
use pocket_mo_e.Prelude.{List, [], ◌∷◌, ◌++◌, String}
use pocket_mo_e.Prelude.Text.{Text, codes}

abbrev join_lines : List String → Text
join_lines [] = []
join_lines (s ∷ ss) = codes s ++ join_lines ss

-- `REASONING_EFFORT_MAX`
abbrev pub reasoning_effort_max : Text
reasoning_effort_max = join_lines (
    "Reasoning Effort: Absolute maximum with no shortcuts permitted.\n"
    ∷ "You MUST be very thorough in your thinking and comprehensively decompo"
    ∷ "se the problem to resolve the root cause, rigorously stress-testing yo"
    ∷ "ur logic against all potential paths, edge cases, and adversarial scen" ∷ "arios.\n"
    ∷ "Explicitly write out your entire deliberation process, documenting eve"
    ∷ "ry intermediate step, considered alternative, and rejected hypothesis "
    ∷ "to ensure absolutely no assumption is left unchecked.\n" ∷ "\n" ∷ [])

-- `TOOLS_TEMPLATE`, before the schemas
abbrev pub tools_head : Text
tools_head = join_lines (
    "## Tools\n" ∷ "\n" ∷ "You have access to a set of tools to help answer the user's question. "
    ∷ "You can invoke tools by writing a \"<｜DSML｜tool_calls>\" block like the " ∷ "following:\n"
    ∷ "\n" ∷ "<｜DSML｜tool_calls>\n" ∷ "<｜DSML｜invoke name=\"$TOOL_NAME\">\n"
    ∷ "<｜DSML｜parameter name=\"$PARAMETER_NAME\" string=\"true|false\">$PARAMETER"
    ∷ "_VALUE</｜DSML｜parameter>\n" ∷ "...\n" ∷ "</｜DSML｜invoke>\n"
    ∷ "<｜DSML｜invoke name=\"$TOOL_NAME2\">\n" ∷ "...\n" ∷ "</｜DSML｜invoke>\n"
    ∷ "</｜DSML｜tool_calls>\n" ∷ "\n"
    ∷ "String parameters should be specified as is and set `string=\"true\"`. F"
    ∷ "or all other types (numbers, booleans, arrays, objects), pass the valu"
    ∷ "e in JSON format and set `string=\"false\"`.\n" ∷ "\n"
    ∷ "If thinking_mode is enabled (triggered by <think>), you MUST output yo"
    ∷ "ur complete reasoning inside <think>...</think> BEFORE any tool calls "
    ∷ "or final response.\n" ∷ "\n"
    ∷ "Otherwise, output directly after </think> with tool calls or final res" ∷ "ponse.\n" ∷ "\n"
    ∷ "### Available Tool Schemas\n" ∷ "\n" ∷ [])

-- `TOOLS_TEMPLATE`, after the schemas
abbrev pub tools_tail : Text
tools_tail = join_lines (
    "\n" ∷ "\n" ∷ "You MUST strictly follow the above defined tool name and parameter sch"
    ∷ "emas to invoke tool calls.\n" ∷ [])

-- `response_format_template`, before the schema
abbrev pub response_format_head : Text
response_format_head = join_lines (
    "## Response Format:\n" ∷ "\n" ∷ "You MUST strictly adhere to the following schema to reply:\n"
    ∷ [])
