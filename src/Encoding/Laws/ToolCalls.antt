-- ===== src/Encoding/Laws/ToolCalls.antt =====
-- The list of a message's calls read back as it is written (encoding/dsv4.py).
use mathlib.Core.List.{append_assoc, append-nil}
use pocket_mo_e.Prelude.{
  ℕ, zero, suc, ◌<◌, ◌≤◌, List, [], ◌∷◌, ◌++◌, map, Option, none, some, true, ok, ◌≡◌, refl, ap,
  sym, ◌∙◌, All, length, length-append, list_eq, option_eq, nat_eq, arith,
}
use pocket_mo_e.Prelude.Text.{Text, codes, starts_with, contains, join_with}
use pocket_mo_e.Encoding.{Parameter, Call, dsml_token}
use pocket_mo_e.Encoding.Parse.{
  Read, stop_here, read_until_stop, match_name, or_value_error, read_parameters, read_call,
  read_named, read_turn, read_calls, parse_tool_calls, invoke_start, invoke_end, parameter_start,
  tool_calls_end,
}
use pocket_mo_e.Encoding.Render.{parameter_text, tool_call_text, tool_calls_text}
use pocket_mo_e.Encoding.Laws.Scan.{is_free, no_clash, found, read_until_stop-found, is_free-of}
use pocket_mo_e.Encoding.Laws.Pieces.{
  parameter_body, name_body, NoToken, name_body-NoToken, match_name-body, match_name-body_gap,
}
use pocket_mo_e.Encoding.Laws.Calls.{
  IsPlainParameter, distinct_keys, part_stops, after_body, more_parameters, call_end,
  parameter_text-append, read_parameters-all,
}

-- A call that reads back.
abbrev pub IsPlainCall : Call → Type 0
IsPlainCall c =
    NoToken c.name × All IsPlainParameter c.parameters × (distinct_keys [] c.parameters ≡ true)

-- the text of a call after its `invoke`
abbrev call_body : Call → Text → Text
call_body c rest =
    codes " name=\""
    ++ (c.name
        ++ (codes "\">\n"
            ++ (join_with (codes "\n") (map parameter_text c.parameters) ++ call_end rest)))

join_parameters :
    (p : Parameter) (ps : List Parameter)
    → join_with (codes "\n") (map parameter_text (p ∷ ps)) ≡ parameter_text p ++ more_parameters ps
unfolding join_with
join_parameters p [] = sym (append-nil (parameter_text p))
join_parameters p (q ∷ qs) = ap (λ t. parameter_text p ++ (codes "\n" ++ t)) (join_parameters q qs)

length-more_parameters : (ps : List Parameter) → length ps ≤ length (more_parameters ps)
length-more_parameters [] = omega arith
length-more_parameters (p ∷ ps) =
    ground (arith, length-more_parameters ps, length-append (parameter_text p) (more_parameters ps))

-- a call whose name and parameters are read
read_call-parts :
    (text b : Text) (s name : Text) (after rest : Text) (ps : List Parameter)
    → read_until_stop part_stops text ≡ found b s after
    → match_name b ≡ some name
    → read_parameters (suc (length text)) (found b s after) [] ≡ some (ok (ps, rest))
    → read_call text ≡ some (ok (record { name = name; parameters = ps }, rest))
unfolding read_call read_named or_value_error
read_call-parts text b s name after rest ps stops matches reads =
    ap (read_named (suc (length text))) stops ∙ rw (matches, reads, read_named)

read_name :
    (name gap : Text) (c : ℕ) (s rest : Text)
    → NoToken (name_body name gap)
    → no_clash part_stops (c ∷ s) ≡ true
    → stop_here part_stops (c ∷ (s ++ rest)) ≡ some (c ∷ s)
    → read_until_stop part_stops (name_body name gap ++ (c ∷ (s ++ rest)))
      ≡ found (name_body name gap) (c ∷ s) rest
unfolding contains starts_with
read_name name gap c s rest clean =
    read_until_stop-found part_stops (name_body name gap) c s rest
      (is_free-of dsml_token part_stops (name_body name gap) refl clean)

call_body-nil :
    (name rest : Text)
    → call_body (record { name = name; parameters = [] }) rest
      ≡ name_body name (codes "\n") ++ (invoke_end ++ rest)
unfolding join_with
call_body-nil name rest = simp append_assoc

call_body-cons :
    (name : Text) (p : Parameter) (ps : List Parameter) (rest : Text)
    → call_body (record { name = name; parameters = p ∷ ps }) rest
      ≡ name_body name []
        ++ (parameter_start
            ++ (parameter_body p ++ after_body (more_parameters ps ++ call_end rest)))
call_body-cons name p ps rest =
    ap (λ t. codes " name=\"" ++ (name ++ (codes "\">\n" ++ (t ++ call_end rest))))
      (join_parameters p ps)
    ∙ ap (λ t. codes " name=\"" ++ (name ++ (codes "\">\n" ++ t)))
        (append_assoc (parameter_text p) (more_parameters ps) (call_end rest)
          ∙ parameter_text-append p (more_parameters ps ++ call_end rest))
    ∙ sym (
        append_assoc (codes " name=\"" ++ name) (codes "\">\n") (
          parameter_start
          ++ (parameter_body p ++ after_body (more_parameters ps ++ call_end rest))))

abbrev after_start : Parameter → List Parameter → Text → Text
after_start p ps rest = parameter_body p ++ after_body (more_parameters ps ++ call_end rest)

after_start-length :
    (p : Parameter) (ps : List Parameter) (rest x : Text)
    → length ps < length (x ++ (parameter_start ++ after_start p ps rest))
after_start-length p ps rest x = ground (
  arith,
  length-more_parameters ps,
  length-append x (parameter_start ++ after_start p ps rest),
  length-append (parameter_body p) (after_body (more_parameters ps ++ call_end rest)),
  length-append (more_parameters ps) (call_end rest),
)

pub read_call-body :
    (name : Text) (ps : List Parameter) (rest : Text)
    → IsPlainCall (record { name = name; parameters = ps })
    → read_call (call_body (record { name = name; parameters = ps }) rest)
      ≡ some (ok (record { name = name; parameters = ps }, rest))
unfolding contains starts_with stop_here no_clash read_parameters
read_call-body name [] rest plain =
    ap read_call (call_body-nil name rest)
    ∙ read_call-parts (name_body name (codes "\n") ++ (invoke_end ++ rest))
        (name_body name (codes "\n")) invoke_end name rest rest []
        (read_name name (codes "\n") 60 (codes "/｜DSML｜invoke") rest
          (name_body-NoToken name (codes "\n") plain.0 refl) refl refl)
        (match_name-body_gap name) refl
read_call-body name (p ∷ ps) rest plain =
    ap read_call (call_body-cons name p ps rest)
    ∙ read_call-parts (name_body name [] ++ (parameter_start ++ after_start p ps rest))
        (name_body name []) parameter_start name (after_start p ps rest) rest (p ∷ ps)
        (read_name name [] 60 (codes "｜DSML｜parameter") (after_start p ps rest)
          (name_body-NoToken name [] plain.0 refl) refl refl)
        (match_name-body name)
        (read_parameters-all p ps [] (name_body name []) rest
          (length (name_body name [] ++ (parameter_start ++ after_start p ps rest))) plain.1 plain.2
          (after_start-length p ps rest (name_body name [])))

abbrev pub call_text : Call → Text
call_text c = tool_call_text c.name (join_with (codes "\n") (map parameter_text c.parameters))

call_text-append :
    (c : Call) (rest : Text) → call_text c ++ rest ≡ invoke_start ++ call_body c (codes ">" ++ rest)
call_text-append c rest = simp append_assoc

-- the further calls, each on its line
abbrev pub more_calls : List Call → Text
more_calls [] = []
more_calls (c ∷ cs) = codes "\n" ++ (call_text c ++ more_calls cs)

abbrev pub calls_end : Text → Text
calls_end rest = codes "\n" ++ (tool_calls_end ++ rest)

abbrev call_stops : List Text
call_stops = invoke_start ∷ tool_calls_end ∷ []

read_call_stop :
    (c : ℕ) (s rest : Text)
    → no_clash call_stops (c ∷ s) ≡ true
    → stop_here call_stops (c ∷ (s ++ rest)) ≡ some (c ∷ s)
    → read_until_stop call_stops (codes ">\n" ++ (c ∷ (s ++ rest)))
      ≡ found (codes ">\n") (c ∷ s) rest
unfolding contains starts_with is_free
read_call_stop c s rest clear here =
    read_until_stop-found call_stops (codes ">\n") c s rest refl clear here

read_calls-suc :
    (c : ℕ) (text : Text) (r : Read) (out : Option Call × Text) (known : List Call) (fuel : ℕ)
    → read_until_stop call_stops (c ∷ text) ≡ r
    → read_turn r ≡ some (ok out)
    → read_calls (suc fuel) (c ∷ text) known ≡ elim out.0 [
      | none ↦ some (ok (known, out.1))
      | some call ↦ read_calls fuel out.1 (known ++ call ∷ [])
    ]
unfolding read_calls
read_calls-suc c text r (none, rest) known fuel stops turn = rw (stops, turn, read_calls)
read_calls-suc c text r (some call, rest) known fuel stops turn = rw (stops, turn, read_calls)

read_turn-call :
    (c : Call) (rest : Text)
    → IsPlainCall c
    → read_turn (found (codes ">\n") invoke_start (call_body c rest)) ≡ some (ok (some c, rest))
unfolding read_turn
read_turn-call c rest plain = rw (read_call-body c.name c.parameters rest plain)

more_calls-append :
    (c : Call) (cs : List Call) (rest : Text)
    → more_calls (c ∷ cs) ++ calls_end rest
      ≡ codes "\n" ++ (invoke_start ++ call_body c (codes ">" ++ (more_calls cs ++ calls_end rest)))
more_calls-append c cs rest = ap (◌++◌ (codes "\n")) (
    append_assoc (call_text c) (more_calls cs) (calls_end rest)
    ∙ call_text-append c (more_calls cs ++ calls_end rest))

pub read_calls-all :
    (cs known : List Call) (rest : Text) (fuel : ℕ)
    → All IsPlainCall cs
    → length cs < fuel
    → read_calls fuel (codes ">" ++ (more_calls cs ++ calls_end rest)) known
      ≡ some (ok (known ++ cs, rest))
unfolding no_clash stop_here starts_with read_turn
read_calls-all cs known rest zero plain enough = absurd (omega arith)
read_calls-all [] known rest (suc fuel) plain enough =
    read_calls-suc 62 (calls_end rest) (found (codes ">\n") tool_calls_end rest) (none, rest) known
      fuel (read_call_stop 60 (codes "/｜DSML｜tool_calls>") rest refl refl) refl
    ∙ ap (λ cs. some (ok (cs, rest))) (sym (append-nil known))
read_calls-all (c ∷ cs) known rest (suc fuel) plain enough =
    ap (λ t. read_calls (suc fuel) (codes ">" ++ t) known) (more_calls-append c cs rest)
    ∙ read_calls-suc 62
        (codes "\n"
          ++ (invoke_start ++ call_body c (codes ">" ++ (more_calls cs ++ calls_end rest))))
        (found (codes ">\n") invoke_start
          (call_body c (codes ">" ++ (more_calls cs ++ calls_end rest))))
        (some c, codes ">" ++ (more_calls cs ++ calls_end rest)) known fuel
        (read_call_stop 60 (codes "｜DSML｜invoke")
          (call_body c (codes ">" ++ (more_calls cs ++ calls_end rest))) refl refl)
        (read_turn-call c (codes ">" ++ (more_calls cs ++ calls_end rest)) plain.0)
    ∙ read_calls-all cs (known ++ c ∷ []) rest fuel plain.1 (omega arith)
    ∙ ap (λ cs. some (ok (cs, rest))) (append_assoc known (c ∷ []) cs)

join_calls :
    (c : Call) (cs : List Call)
    → join_with (codes "\n") (map call_text (c ∷ cs)) ≡ call_text c ++ more_calls cs
unfolding join_with
join_calls c [] = sym (append-nil (call_text c))
join_calls c (d ∷ ds) = ap (λ t. call_text c ++ (codes "\n" ++ t)) (join_calls d ds)

length-more_calls : (cs : List Call) → length cs ≤ length (more_calls cs)
length-more_calls [] = omega arith
length-more_calls (c ∷ cs) =
    ground (arith, length-more_calls cs, length-append (call_text c) (more_calls cs))

-- The calls as they are written, after the start of their list, are read back.
pub parse_tool_calls-all :
    (cs : List Call) (rest : Text)
    → All IsPlainCall cs
    → parse_tool_calls (codes ">" ++ (more_calls cs ++ calls_end rest)) ≡ some (ok (cs, rest))
unfolding parse_tool_calls
parse_tool_calls-all cs rest plain =
    read_calls-all cs [] rest (suc (length (codes ">" ++ (more_calls cs ++ calls_end rest)))) plain
      (ground (arith, length-more_calls cs, length-append (more_calls cs) (calls_end rest)))

-- What stands for the calls of a message, with their list's start set apart.
pub tool_calls_text-append :
    (c : Call) (cs : List Call) (rest : Text)
    → tool_calls_text (map call_text (c ∷ cs)) ++ rest
      ≡ codes "\n\n<｜DSML｜tool_calls" ++ (codes ">" ++ (more_calls (c ∷ cs) ++ calls_end rest))
tool_calls_text-append c cs rest =
    ap (λ t. (codes "\n\n<｜DSML｜tool_calls>\n" ++ (t ++ codes "\n</｜DSML｜tool_calls>")) ++ rest)
      (join_calls c cs)
    ∙ simp append_assoc
