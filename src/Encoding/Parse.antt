-- ===== src/Encoding/Parse.antt =====
-- The parser of what the model answers (encoding/dsv4.py). Where the program keeps an index into the
-- text, this is what is left of the text from there on. The two loops are on fuel; `none` means
-- that it ran out.
use pocket_mo_e.Prelude.{
  ℕ, zero, suc, List, [], ◌∷◌, ◌++◌, map, Option, none, some, Bool, true, false, not, ◌&&◌, ◌||◌,
  Result, ok, err, value_error, assertion_error, require, ◌>>=◌, ◌>>◌, all, drop, length, list_eq,
  option_eq, nat_eq, ◌==◌, if◌then◌else◌,
}
use pocket_mo_e.Prelude.Text.{Text, codes, starts_with, contains, lstrip, join_with}
use pocket_mo_e.Encoding.{
  Json, Parameter, Call, bos_token, eos_token, thinking_start_token, thinking_end_token, dsml_token,
}

-- What `_read_until_stop` answers: the text before the stop, the stop, and the text after it.
pub record Read : Type 0 where
  pub before : Text
  pub stop : Option Text
  pub rest : Text

-- the first of the stops that the text starts with
unfoldable pub stop_here : List Text → Text → Option Text
stop_here [] text = none
stop_here (s ∷ ss) text = if starts_with s text then some s else stop_here ss text

unfoldable pub read_char : ℕ → Text → Option Text → Read → Read
read_char c text none r = record r { before = c ∷ r.before }
read_char c text (some s) r = record {
  before = [];
  stop = some s;
  rest = drop (length s) (c ∷ text);
}

-- `_read_until_stop`: the stop that comes first, and of those that come there the first listed
unfoldable pub read_until_stop : List Text → Text → Read
unfolding read_char
read_until_stop stops [] = record { before = []; stop = none; rest = [] }
read_until_stop stops (c ∷ text) =
    read_char c text (stop_here stops (c ∷ text)) (read_until_stop stops text)

abbrev pub invoke_start : Text
invoke_start = codes "<｜DSML｜invoke"

abbrev pub invoke_end : Text
invoke_end = codes "</｜DSML｜invoke"

abbrev pub parameter_start : Text
parameter_start = codes "<｜DSML｜parameter"

abbrev pub parameter_end : Text
parameter_end = codes "/｜DSML｜parameter"

abbrev pub tool_calls_start : Text
tool_calls_start = codes "\n\n<｜DSML｜tool_calls"

abbrev pub tool_calls_end : Text
tool_calls_end = codes "</｜DSML｜tool_calls>"

-- The text before `tail`, where the text ends with it, or with it and a newline: `(.*?)tail$`.
unfoldable pub before_tail : Text → Text → Option Text
before_tail tail [] = none
before_tail tail (c ∷ text) =
    let rest = before_tail tail text in
    if c ∷ text == tail || c ∷ text == tail ++ codes "\n"
    then some []
    else elim rest [ none ↦ none | some t ↦ some (c ∷ t) ]

-- the text after `head`
after_head : Text → Text → Option Text
after_head head text = if starts_with head text then some (drop (length head) text) else none

unfoldable pub bind {ℓ κ} : {A : Type ℓ} {B : Type κ} → Option A → (A → Option B) → Option B
bind none f = none
bind (some a) f = f a

-- the pattern `^\s*name="(.*?)">\n$`
unfoldable pub match_name : Text → Option Text
unfolding after_head bind
match_name text = bind (after_head (codes "name=\"") (lstrip text)) (before_tail (codes "\">\n"))

flagged : Bool → Text → Option (Text × (Bool × Text))
flagged b text = some ([], (b, text))

-- `(.*?)" string="(true|false)">`, with the text after it
unfoldable pub match_key : Text → Option (Text × (Bool × Text))
unfolding flagged
match_key [] = none
match_key (c ∷ text) =
    let rest = match_key text in
    let yes = codes "\" string=\"true\">" in
    let no = codes "\" string=\"false\">" in
    if starts_with yes (c ∷ text)
    then flagged true (drop (length yes) (c ∷ text))
    else if starts_with no (c ∷ text)
    then flagged false (drop (length no) (c ∷ text))
    else elim rest [ none ↦ none | some r ↦ some (c ∷ r.0, r.1) ]

-- the pattern `^ name="(.*?)" string="(true|false)">(.*?)<$`
unfoldable pub match_parameter : Text → Option Parameter
unfolding after_head bind
match_parameter text = bind (bind (after_head (codes " name=\"") text) match_key) (λ r.
    bind (before_tail (codes "<") r.1.1)
      (λ value. some (record { key = r.0; is_string = r.1.0; value = value })))

unfoldable pub or_value_error {ℓ} : {A : Type ℓ} → Option A → Result A
or_value_error none = err value_error
or_value_error (some a) = ok a

unfoldable pub has_key : Text → List Parameter → Bool
has_key k [] = false
has_key k (p ∷ ps) = p.key == k || has_key k ps

-- a new parameter, with the read after it
unfoldable pub add_parameter : List Parameter → Read → Parameter → Result (List Parameter × Read)
unfolding has_key
add_parameter known s p = do
  require (not (has_key p.key known)) value_error
  require (s.before == codes ">\n") value_error
  ok (known ++ p ∷ [], s)

-- one parameter, and the text with its stop after it
unfoldable pub read_parameter : Text → List Parameter → Result (List Parameter × Read)
unfolding or_value_error
read_parameter text known =
    let r = read_until_stop (parameter_end ∷ []) text in
    or_value_error (match_parameter r.before)
    >>= add_parameter known (read_until_stop (parameter_start ∷ invoke_end ∷ []) r.rest)

-- the inner loop of `parse_tool_calls`
unfoldable pub read_parameters : ℕ → Read → List Parameter → Option (Result (List Parameter × Text))
read_parameters zero r known = none
read_parameters (suc fuel) r known =
    if r.stop == some parameter_start
    then elim (read_parameter r.rest known) [
      | err e ↦ some (err e)
      | ok (ps, s) ↦ read_parameters fuel s ps
    ]
    else some (ok (known, r.rest))

-- the name that was read, and the parameters after it
unfoldable pub read_named : ℕ → Read → Option (Result (Call × Text))
unfolding or_value_error
read_named fuel r = elim (or_value_error (match_name r.before)) [
  | err e ↦ some (err e)
  | ok name ↦ elim (read_parameters fuel r []) [
    | none ↦ none
    | some out ↦ some (out >>= λ o. ok (record { name = name; parameters = o.0 }, o.1))
  ]
]

-- one call, from after its `invoke`
unfoldable pub read_call : Text → Option (Result (Call × Text))
unfolding read_named
read_call text =
    read_named (suc (length text)) (read_until_stop (parameter_start ∷ invoke_end ∷ []) text)

-- A turn of the outer loop after its read: the call, or none where the list ends, and the text left.
unfoldable pub read_turn : Read → Option (Result (Option Call × Text))
read_turn r =
    if not (r.before == codes ">\n")
    then some (err value_error)
    else if r.stop == some tool_calls_end
    then some (ok (none, r.rest))
    else if r.stop == none
    then some (err value_error)
    else elim (read_call r.rest) [
      | none ↦ none
      | some (err e) ↦ some (err e)
      | some (ok (call, rest)) ↦ some (ok (some call, rest))
    ]

-- the outer loop of `parse_tool_calls`
unfoldable pub read_calls : ℕ → Text → List Call → Option (Result (List Call × Text))
read_calls zero text known = none
read_calls (suc fuel) [] known = some (ok (known, []))
read_calls (suc fuel) (c ∷ text) known =
    elim (read_turn (read_until_stop (invoke_start ∷ tool_calls_end ∷ []) (c ∷ text))) [
      | none ↦ none
      | some (err e) ↦ some (err e)
      | some (ok (none, rest)) ↦ some (ok (known, rest))
      | some (ok (some call, rest)) ↦ read_calls fuel rest (known ++ call ∷ [])
    ]

-- `parse_tool_calls`, before `decode_dsml_to_arguments`
unfoldable pub parse_tool_calls : Text → Option (Result (List Call × Text))
parse_tool_calls text = read_calls (suc (length text)) text []

-- The message before its calls are decoded: each is a name with its parameters.
pub record Parsed : Type 0 where
  pub content : Text
  pub reasoning_content : Text
  pub tool_calls : List Call

-- the special tokens that no content may have
abbrev pub special_tokens : List Text
special_tokens = bos_token ∷ eos_token ∷ thinking_start_token ∷ thinking_end_token ∷ dsml_token ∷ []

unfoldable pub is_clean : Text → Bool
is_clean text = all (λ t. not (contains t text)) special_tokens

-- the reasoning and the text after it
unfoldable pub read_reasoning : Bool → Text → Result (Text × Text)
read_reasoning false text = ok ([], text)
read_reasoning true text = do
  let r = read_until_stop (thinking_end_token ∷ tool_calls_start ∷ []) text
  require (r.stop == some thinking_end_token) assertion_error
  ok (r.before, r.rest)

unfoldable pub is_nil : Text → Bool
is_nil [] = true
is_nil (c ∷ t) = false

-- the calls and the end of the text after them
unfoldable pub read_end : List Call × Text → Result (List Call)
unfolding is_nil
read_end (calls, text) = do
  let r = read_until_stop (eos_token ∷ []) text
  require (is_nil r.before) assertion_error
  require (is_nil r.rest) assertion_error
  ok calls

unfoldable pub read_tool_calls : Text → Option (Result (List Call))
read_tool_calls text = elim (parse_tool_calls text) [
  | none ↦ none
  | some out ↦ some (out >>= read_end)
]

-- after the content: the end of the text, or the calls
unfoldable pub read_after : Read → Option (Result (List Call))
unfolding is_nil
read_after r =
    if r.stop == some tool_calls_start
    then read_tool_calls r.rest
    else some (
        require (r.stop == some eos_token) assertion_error
        >> (require (is_nil r.rest) assertion_error >> ok []))

unfoldable pub finish : Text → Text → List Call → Result Parsed
finish reasoning content calls = do
  require (is_clean content && is_clean reasoning) assertion_error
  ok (record { content = content; reasoning_content = reasoning; tool_calls = calls })

-- the content that was read, and what is after it
unfoldable pub parse_rest : Text → Read → Option (Result Parsed)
unfolding finish
parse_rest reasoning r = elim (read_after r) [
  | none ↦ none
  | some out ↦ some (out >>= finish reasoning r.before)
]

-- the parser up to the decoding of the calls
unfoldable pub parse_completion : Bool → Text → Option (Result Parsed)
parse_completion is_thinking text = elim (read_reasoning is_thinking text) [
  | err e ↦ some (err e)
  | ok (reasoning, rest) ↦
      parse_rest reasoning (read_until_stop (eos_token ∷ tool_calls_start ∷ []) rest)
]

-- the message of `parse_message_from_completion_text`: of a call its name and its arguments in JSON
pub record Completion : Type 0 where
  pub content : Text
  pub reasoning_content : Text
  pub tool_calls : List (Text × Text)

module _ {J : Type 0} (json : Json J) where
  -- `_decode_value`
  unfoldable pub decode_value : Parameter → Text
  decode_value p =
      json.dumps (json.text_value p.key)
      ++ (codes ": " ++ (if p.is_string then json.dumps (json.text_value p.value) else p.value))

  -- `decode_dsml_to_arguments`: the name and the arguments
  unfoldable pub decode_dsml_to_arguments : Call → Text × Text
  decode_dsml_to_arguments c =
      (c.name, codes "{" ++ (join_with (codes ", ") (map decode_value c.parameters) ++ codes "}"))

  abbrev pub with_arguments : Parsed → Completion
  with_arguments p = record {
    content = p.content;
    reasoning_content = p.reasoning_content;
    tool_calls = map decode_dsml_to_arguments p.tool_calls;
  }

  -- `parse_message_from_completion_text`. The source decodes each call when it is read; that raises
  -- nothing, and nothing reads what it gives.
  unfoldable pub parse_message_from_completion_text : Bool → Text → Option (Result Completion)
  parse_message_from_completion_text is_thinking text = elim (parse_completion is_thinking text) [
    | none ↦ none
    | some out ↦ some (out >>= λ p. ok (with_arguments p))
  ]
