-- ===== src/Encoding/Laws/Fuel.antt =====
-- The parser of the model's answer ends on every text (encoding/dsv4.py): each read leaves less.
use pocket_mo_e.Prelude.{
  ℕ, zero, suc, ◌<◌, ◌≤◌, List, [], ◌∷◌, ◌++◌, Option, none, some, Bool, Result, ok, err, ◌>>=◌,
  >>=-elim, ◌≡◌, ◌≢◌, refl, subst, ◌∙◌, inl, inr, length, list_eq, option_eq, nat_eq, ◌==◌,
  Bool-cases, Result-cases, arith,
}
use pocket_mo_e.Prelude.Text.{Text, codes, starts_with}
use pocket_mo_e.Encoding.{Json, Parameter, Call, eos_token}
use pocket_mo_e.Encoding.Parse.{
  Read, read_until_stop, match_name, match_parameter, or_value_error, add_parameter, read_parameter,
  read_parameters, read_named, read_call, read_turn, read_calls, parse_tool_calls, invoke_start,
  invoke_end, parameter_start, parameter_end, tool_calls_start, tool_calls_end, read_reasoning,
  read_tool_calls, read_after, read_end, finish, parse_rest, parse_completion, Completion,
  with_arguments, parse_message_from_completion_text,
}
use pocket_mo_e.Encoding.Laws.Shorter.{read_le, read_lt}

-- A call of the parser returned, and left at most `n` characters.
Returns : {A : Type 0} → ℕ → Option (Result (A × Text)) → Type 0
Returns n none = ⊥
Returns n (some (err e)) = Unit
Returns n (some (ok (a, rest))) = length rest ≤ n

no_parameter :
    (p : Parameter)
    → or_value_error (match_parameter (read_until_stop (parameter_end ∷ []) []).before) ≢ ok p
unfolding read_until_stop match_parameter or_value_error starts_with
no_parameter p h = cc

add_parameter_same :
    (known ps : List Parameter) (s t : Read) (p : Parameter)
    → add_parameter known s p ≡ ok (ps, t)
    → s ≡ t
unfolding add_parameter
add_parameter_same known ps s t p h = ground arith

read_parameter-length :
    (text : Text) (known ps : List Parameter) (s : Read)
    → read_parameter text known ≡ ok (ps, s)
    → length s.rest < length text
unfolding read_parameter
read_parameter-length [] known ps s h =
    >>=-elim (or_value_error (match_parameter (read_until_stop (parameter_end ∷ []) []).before)) _ h
      (λ p e h'. absurd (no_parameter p e))
read_parameter-length (c ∷ text) known ps s h =
    let r : Read = read_until_stop (parameter_end ∷ []) (c ∷ text) in
    let t : Read = read_until_stop (parameter_start ∷ invoke_end ∷ []) r.rest in
    >>=-elim (or_value_error (match_parameter r.before)) (add_parameter known t) h (λ p e h'.
      subst (λ (s : Read). length s.rest < length (c ∷ text)) (add_parameter_same known ps t s p h')
        (omega (
          arith,
          read_lt (parameter_end ∷ []) c text refl,
          read_le (parameter_start ∷ invoke_end ∷ []) r.rest refl,
        )))

Returns-mono :
    {A : Type 0} (m n : ℕ) (o : Option (Result (A × Text))) → m ≤ n → Returns m o → Returns n o
unfolding Returns
Returns-mono m n none le h = h
Returns-mono m n (some (err e)) le h = h
Returns-mono m n (some (ok (a, rest))) le h = omega arith

read_parameters-Returns :
    (fuel : ℕ) (r : Read) (known : List Parameter)
    → length r.rest < fuel
    → Returns (length r.rest) (read_parameters fuel r known)
unfolding read_parameters Returns
read_parameters-Returns zero r known enough = absurd (omega arith)
read_parameters-Returns (suc fuel) r known enough =
    elim (Bool-cases (r.stop == some parameter_start)) [
      | inl t ↦ elim (Result-cases (read_parameter r.rest known)) [
        | inl (e, h) ↦ rw (t, h) tt
        | inr ((ps, s), h) ↦
            let lt = read_parameter-length r.rest known ps s h in
            rw (t, h)
              (Returns-mono (length s.rest) (length r.rest) (read_parameters fuel s ps)
                (omega (arith, lt)) (read_parameters-Returns fuel s ps (omega (arith, lt))))
      ]
      | inr f ↦ rw f (omega arith)
    ]

named-Returns :
    (name : Text) (n : ℕ) (o : Option (Result (List Parameter × Text)))
    → Returns n o
    → Returns {A = Call} n (elim o [
      | none ↦ none
      | some out ↦ some (out >>= λ o. ok (record { name = name; parameters = o.0 }, o.1))
    ])
unfolding Returns
named-Returns name n none h = h
named-Returns name n (some (err e)) h = h
named-Returns name n (some (ok (ps, rest))) h = h

read_named-Returns :
    (fuel : ℕ) (r : Read) → length r.rest < fuel → Returns (length r.rest) (read_named fuel r)
unfolding read_named Returns
read_named-Returns fuel r enough = elim (Result-cases (or_value_error (match_name r.before))) [
  | inl (e, h) ↦ rw (h, read_named) tt
  | inr (name, h) ↦
      rw (h, read_named)
        (named-Returns name (length r.rest) (read_parameters fuel r [])
          (read_parameters-Returns fuel r [] enough))
]

read_call-Returns : (text : Text) → Returns (length text) (read_call text)
unfolding read_call
read_call-Returns text =
    let le = read_le (parameter_start ∷ invoke_end ∷ []) text refl in
    Returns-mono (length (read_until_stop (parameter_start ∷ invoke_end ∷ []) text).rest)
      (length text) (read_call text) le
      (read_named-Returns (suc (length text))
        (read_until_stop (parameter_start ∷ invoke_end ∷ []) text) (omega (arith, le)))

read_call_turn-Returns :
    (n : ℕ) (o : Option (Result (Call × Text)))
    → Returns n o
    → Returns n (elim o [
      | none ↦ none
      | some (err e) ↦ some (err e)
      | some (ok (call, rest)) ↦ some (ok (some call, rest))
    ])
unfolding Returns
read_call_turn-Returns n none h = h
read_call_turn-Returns n (some (err e)) h = tt
read_call_turn-Returns n (some (ok (call, rest))) h = h

read_turn-Returns : (r : Read) → Returns (length r.rest) (read_turn r)
unfolding read_turn Returns
read_turn-Returns r = elim (Bool-cases (r.before == codes ">\n")) [
  | inl t ↦ elim (Bool-cases (r.stop == some tool_calls_end)) [
    | inl done ↦ rw (t, done) (omega arith)
    | inr more ↦ elim (Bool-cases (r.stop == none)) [
      | inl missing ↦ rw (t, more, missing) tt
      | inr there ↦
          rw (t, more, there)
            (read_call_turn-Returns (length r.rest) (read_call r.rest) (read_call-Returns r.rest))
    ]
  ]
  | inr f ↦ rw f tt
]

after_turn-Returns :
    (m n : ℕ) (o : Option (Result (Option Call × Text))) (known : List Call)
    (next : Text → List Call → Option (Result (List Call × Text)))
    → m ≤ n
    → Returns m o
    → ((rest : Text) (calls : List Call)
        → length rest ≤ m
        → Returns (length rest) (next rest calls))
    → Returns n (elim o [
      | none ↦ none
      | some (err e) ↦ some (err e)
      | some (ok (none, rest)) ↦ some (ok (known, rest))
      | some (ok (some call, rest)) ↦ next rest (known ++ call ∷ [])
    ])
unfolding Returns
after_turn-Returns m n none known next le h go = h
after_turn-Returns m n (some (err e)) known next le h go = tt
after_turn-Returns m n (some (ok (none, rest))) known next le h go = omega arith
after_turn-Returns m n (some (ok (some call, rest))) known next le h go =
    Returns-mono (length rest) n (next rest (known ++ call ∷ [])) (omega arith)
      (go rest (known ++ call ∷ []) h)

read_calls-Returns :
    (fuel : ℕ) (text : Text) (known : List Call)
    → length text < fuel
    → Returns (length text) (read_calls fuel text known)
unfolding read_calls Returns
read_calls-Returns zero text known enough = absurd (omega arith)
read_calls-Returns (suc fuel) [] known enough = omega arith
read_calls-Returns (suc fuel) (c ∷ text) known enough =
    let r : Read = read_until_stop (invoke_start ∷ tool_calls_end ∷ []) (c ∷ text) in
    let lt : length r.rest < length (c ∷ text) =
      read_lt (invoke_start ∷ tool_calls_end ∷ []) c text refl in
    after_turn-Returns (length r.rest) (length (c ∷ text)) (read_turn r) known (read_calls fuel)
      (omega (arith, lt)) (read_turn-Returns r)
      (λ rest calls le. read_calls-Returns fuel rest calls (omega (arith, lt)))

-- The answer to any text is an answer: no fuel runs out.
Answers : {A : Type 0} → Option (Result A) → Type 0
Answers {A} o = (r : Result A) × (o ≡ some r)

Returns-Answers :
    {A B : Type 0} (n : ℕ) (o : Option (Result (A × Text))) (f : A × Text → Result B)
    → Returns n o
    → Answers (elim o [ none ↦ none | some out ↦ some (out >>= f) ])
unfolding Returns Answers
Returns-Answers n none f h = absurd h
Returns-Answers n (some out) f h = (out >>= f, refl)

read_tool_calls-Answers : (text : Text) → Answers (read_tool_calls text)
unfolding read_tool_calls parse_tool_calls
read_tool_calls-Answers text =
    Returns-Answers (length text) (read_calls (suc (length text)) text []) read_end
      (read_calls-Returns (suc (length text)) text [] (omega arith))

read_after-Answers : (r : Read) → Answers (read_after r)
unfolding read_after Answers
read_after-Answers r = elim (Bool-cases (r.stop == some tool_calls_start)) [
  | inl t ↦ rw t (read_tool_calls-Answers r.rest)
  | inr f ↦ rw f (_, refl)
]

parse_rest-Answers : (reasoning : Text) (r : Read) → Answers (parse_rest reasoning r)
unfolding parse_rest Answers
parse_rest-Answers reasoning r =
    let (out, e) = read_after-Answers r in (out >>= finish reasoning r.before, rw (e, parse_rest))

parse_completion-Answers : (thinks : Bool) (text : Text) → Answers (parse_completion thinks text)
unfolding parse_completion Answers
parse_completion-Answers thinks text = elim (Result-cases (read_reasoning thinks text)) [
  | inl (e, h) ↦ (err e, rw (h, parse_completion))
  | inr ((reasoning, rest), h) ↦
      let (out, e) =
        parse_rest-Answers reasoning (read_until_stop (eos_token ∷ tool_calls_start ∷ []) rest) in
      (out, (rw (h, parse_completion)) ∙ e)
]

module _ {J : Type 0} (json : Json J) where
  -- The parser gives a message or an exception for every text: its loops never run out of the fuel
  -- that they are given, one round more than the characters that are left.
  pub parse_message_terminates :
      (thinks : Bool) (text : Text)
      → (r : Result Completion) × (parse_message_from_completion_text json thinks text ≡ some r)
  unfolding parse_message_from_completion_text Answers
  parse_message_terminates thinks text =
      let (out, e) = parse_completion-Answers thinks text in
      (out >>= (λ p. ok (with_arguments json p)), rw (e, parse_message_from_completion_text) refl)
