-- ===== src/Encoding/Laws/RoundTrip.antt =====
-- An assistant's message that is rendered and parsed again (encoding/dsv4.py).
use mathlib.Core.List.{append_assoc}
use pocket_mo_e.Prelude.{
  List, [], ◌∷◌, ◌++◌, map, some, Bool, true, false, Result, ok, ◌>>=◌, ◌≡◌, refl, ap, subst, ◌∙◌,
  All, list_eq, option_eq, nat_eq, if◌then◌else◌, >>=-elim, ok-injective, arith,
}
use pocket_mo_e.Prelude.Text.{Text, codes, starts_with, contains}
use pocket_mo_e.Encoding.{Json, ToolCall, Message, Call, dsml_token, eos_token, thinking_end_token}
use pocket_mo_e.Encoding.Parse.{
  stop_here, read_until_stop, read_reasoning, read_after, read_tool_calls, read_end, finish, is_nil,
  is_clean, parse_rest, parse_completion, parse_message_from_completion_text,
  decode_dsml_to_arguments, tool_calls_start,
}
use pocket_mo_e.Encoding.Render.{
  or_empty, tool_calls_text, parameters_of, encode_arguments_to_dsml, tool_call_texts,
  tool_calls_content, assistant_text,
}
use pocket_mo_e.Encoding.Laws.Scan.{is_free, no_clash, found, read_until_stop-found, is_free-of}
use pocket_mo_e.Encoding.Laws.ToolCalls.{
  IsPlainCall, call_text, parse_tool_calls-all, tool_calls_text-append, more_calls, calls_end,
}

-- the text of a message's calls, with what ends the message
abbrev after_content : List Call → Text
after_content [] = eos_token
after_content (c ∷ cs) = tool_calls_text (map call_text (c ∷ cs)) ++ eos_token

content_free : (x : Text) → is_clean x ≡ true → is_free (eos_token ∷ tool_calls_start ∷ []) x ≡ true
unfolding is_clean is_free contains starts_with
content_free x clean = ground (arith, is_free-of dsml_token (tool_calls_start ∷ []) x refl)

reasoning_free :
    (x : Text) → is_clean x ≡ true → is_free (thinking_end_token ∷ tool_calls_start ∷ []) x ≡ true
unfolding is_clean is_free contains starts_with
reasoning_free x clean = ground (arith, is_free-of dsml_token (tool_calls_start ∷ []) x refl)

read_reasoning-text :
    (x rest : Text)
    → is_clean x ≡ true
    → read_reasoning true ((x ++ thinking_end_token) ++ rest) ≡ ok (x, rest)
unfolding read_reasoning no_clash stop_here starts_with
read_reasoning-text x rest clean =
    ap (read_reasoning true) (append_assoc x thinking_end_token rest)
    ∙ rw (
        read_until_stop-found (thinking_end_token ∷ tool_calls_start ∷ []) x 60 (codes "/think>")
          rest (reasoning_free x clean) refl refl)

read_tool_calls-all :
    (cs : List Call)
    → All IsPlainCall cs
    → read_tool_calls (codes ">" ++ (more_calls cs ++ calls_end eos_token)) ≡ some (ok cs)
unfolding read_tool_calls read_end is_nil read_until_stop stop_here starts_with
read_tool_calls-all cs plain = rw (parse_tool_calls-all cs eos_token plain, read_tool_calls)

parse_rest-found :
    (reasoning content s rest : Text) (cs : List Call)
    → is_clean reasoning ≡ true
    → is_clean content ≡ true
    → read_after (found content s rest) ≡ some (ok cs)
    → parse_rest reasoning (found content s rest)
      ≡ some (ok (record { content = content; reasoning_content = reasoning; tool_calls = cs }))
unfolding parse_rest finish
parse_rest-found reasoning content s rest cs hr hc after = rw (after, parse_rest, hr, hc)

parse_rest-text :
    (reasoning content : Text) (cs : List Call)
    → is_clean reasoning ≡ true
    → is_clean content ≡ true
    → All IsPlainCall cs
    → parse_rest reasoning
        (read_until_stop (eos_token ∷ tool_calls_start ∷ []) (content ++ after_content cs))
      ≡ some (ok (record { content = content; reasoning_content = reasoning; tool_calls = cs }))
unfolding no_clash stop_here starts_with read_after is_nil
parse_rest-text reasoning content [] hr hc plain =
    ap (parse_rest reasoning) (
      read_until_stop-found (eos_token ∷ tool_calls_start ∷ []) content 60
        (codes "｜end▁of▁sentence｜>") [] (content_free content hc) refl refl)
    ∙ parse_rest-found reasoning content eos_token [] [] hr hc refl
parse_rest-text reasoning content (c ∷ cs) hr hc plain =
    ap
      (λ t.
        parse_rest reasoning (read_until_stop (eos_token ∷ tool_calls_start ∷ []) (content ++ t)))
      (tool_calls_text-append c cs eos_token)
    ∙ ap (parse_rest reasoning) (
        read_until_stop-found (eos_token ∷ tool_calls_start ∷ []) content 10
          (codes "\n<｜DSML｜tool_calls") (codes ">" ++ (more_calls (c ∷ cs) ++ calls_end eos_token))
          (content_free content hc) refl refl)
    ∙ parse_rest-found reasoning content tool_calls_start
        (codes ">" ++ (more_calls (c ∷ cs) ++ calls_end eos_token)) (c ∷ cs) hr hc
        (read_tool_calls-all (c ∷ cs) plain)

read_reasoning_chat : (text : Text) → read_reasoning false text ≡ ok ([], text)
unfolding read_reasoning
read_reasoning_chat text = refl

parse_completion-text :
    (thinks : Bool) (reasoning content : Text) (cs : List Call)
    → is_clean reasoning ≡ true
    → is_clean content ≡ true
    → All IsPlainCall cs
    → parse_completion thinks
        ((if thinks then reasoning ++ thinking_end_token else []) ++ (content ++ after_content cs))
      ≡ some (
          ok (record {
            content = content;
            reasoning_content = if thinks then reasoning else [];
            tool_calls = cs;
          }))
unfolding parse_completion is_clean contains starts_with
parse_completion-text true reasoning content cs hr hc plain =
    (rw (read_reasoning-text reasoning (content ++ after_content cs) hr, parse_completion))
    ∙ parse_rest-text reasoning content cs hr hc plain
parse_completion-text false reasoning content cs hr hc plain =
    (rw (read_reasoning_chat (content ++ after_content cs), parse_completion))
    ∙ parse_rest-text [] content cs refl hc plain

module _ {J : Type 0} (json : Json J) where
  -- the calls with the parameters of their arguments
  abbrev pub calls_of : List ToolCall → Result (List Call)
  calls_of [] = ok []
  calls_of (tc ∷ tcs) = do
    ps ← parameters_of json tc
    cs ← calls_of tcs
    ok (record { name = tc.name; parameters = ps } ∷ cs)

  tool_call_texts-of :
      (tcs : List ToolCall) (cs : List Call)
      → calls_of tcs ≡ ok cs
      → tool_call_texts json tcs ≡ ok (map call_text cs)
  unfolding tool_call_texts encode_arguments_to_dsml
  tool_call_texts-of [] cs h = ap (λ cs. ok (map call_text cs)) (ok-injective h)
  tool_call_texts-of (tc ∷ tcs) cs h = >>=-elim (parameters_of json tc) _ h (λ ps e h'.
      >>=-elim (calls_of tcs) _ h' (λ ds e' h''.
        (rw (e, tool_call_texts-of tcs ds e'))
        ∙ ap (λ cs. ok (map call_text cs)) (ok-injective h'')))

  -- what stands after the content of a message
  rendered_calls :
      (tcs : List ToolCall) (cs : List Call)
      → calls_of tcs ≡ ok cs
      → (text : Text) × (tool_calls_content json tcs ≡ ok text)
        × (text ++ eos_token ≡ after_content cs)
  unfolding tool_calls_content
  rendered_calls [] cs h = ([], refl, ap after_content (ok-injective h))
  rendered_calls (tc ∷ tcs) cs h = (
    tool_calls_text (map call_text cs),
    rw (tool_call_texts-of (tc ∷ tcs) cs h),
    >>=-elim (parameters_of json tc) _ h (λ ps e h'. >>=-elim (calls_of tcs) _ h' (λ ds e' h''.
        subst (λ cs. tool_calls_text (map call_text cs) ++ eos_token ≡ after_content cs)
          (ok-injective h'') refl)),
  )

  parse_message-of :
      (thinks : Bool) (text content reasoning : Text) (cs : List Call)
      → parse_completion thinks text
        ≡ some (ok (record { content = content; reasoning_content = reasoning; tool_calls = cs }))
      → parse_message_from_completion_text json thinks text
        ≡ some (
            ok (record {
              content = content;
              reasoning_content = reasoning;
              tool_calls = map (decode_dsml_to_arguments json) cs;
            }))
  unfolding parse_message_from_completion_text
  parse_message-of thinks text content reasoning cs h =
      rw (h, parse_message_from_completion_text) refl

  -- A message of an assistant, rendered with its end token, is parsed into its content, its
  -- reasoning (where it is rendered) and its calls, which have their parameters before they are
  -- decoded, and in the message what `decode_dsml_to_arguments` makes of those: if the arguments of
  -- its calls are JSON objects or no JSON at all, if the content and the reasoning have no special
  -- token, the names, keys and values no token of the call format, and the keys no quote and are
  -- distinct.
  pub parse_message-assistant_text :
      (thinks : Bool) (m : Message J) (cs : List Call)
      → m.wo_eos ≡ false
      → calls_of m.tool_calls ≡ ok cs
      → All IsPlainCall cs
      → is_clean (or_empty m.content) ≡ true
      → is_clean (or_empty m.reasoning_content) ≡ true
      → (text : Text) × (assistant_text json thinks m ≡ ok text)
        × (parse_completion thinks text
            ≡ some (
                ok (record {
                  content = or_empty m.content;
                  reasoning_content = if thinks then or_empty m.reasoning_content else [];
                  tool_calls = cs;
                })))
        × (parse_message_from_completion_text json thinks text
            ≡ some (
                ok (record {
                  content = or_empty m.content;
                  reasoning_content = if thinks then or_empty m.reasoning_content else [];
                  tool_calls = map (decode_dsml_to_arguments json) cs;
                })))
  unfolding assistant_text
  parse_message-assistant_text thinks m cs stop calls plain content reasoning =
      let (text, rendered, ends) = rendered_calls m.tool_calls cs calls in
      let parsed =
        ap
          (λ t. parse_completion thinks (
            (if thinks then or_empty m.reasoning_content ++ thinking_end_token else [])
            ++ (or_empty m.content ++ t)))
          ends
        ∙ parse_completion-text thinks (or_empty m.reasoning_content) (or_empty m.content) cs
            reasoning content plain in
      (
        (if thinks then or_empty m.reasoning_content ++ thinking_end_token else [])
            ++ (or_empty m.content ++ (text ++ eos_token)),
        rw (rendered, stop),
        parsed,
        parse_message-of thinks _ (or_empty m.content) _ cs parsed,
      )
