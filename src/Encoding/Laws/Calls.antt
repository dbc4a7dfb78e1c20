-- ===== src/Encoding/Laws/Calls.antt =====
-- The calls of a message read back as they are written (encoding/dsv4.py).
use mathlib.Core.List.{append_assoc}
use pocket_mo_e.Prelude.{
  ℕ, zero, suc, ◌<◌, List, [], ◌∷◌, ◌++◌, some, Bool, true, false, not, ◌&&◌, ok, ◌≡◌, refl, ap,
  ◌∙◌, All, length, list_eq, option_eq, nat_eq, arith,
}
use pocket_mo_e.Prelude.Text.{Text, codes, starts_with, contains}
use pocket_mo_e.Encoding.{Parameter, dsml_token}
use pocket_mo_e.Encoding.Parse.{
  stop_here, read_until_stop, has_key, add_parameter, read_parameter, or_value_error,
  read_parameters, invoke_end, parameter_start, parameter_end,
}
use pocket_mo_e.Encoding.Render.{parameter_text}
use pocket_mo_e.Encoding.Laws.Scan.{is_free, no_clash, found, read_until_stop-found, is_free-of}
use pocket_mo_e.Encoding.Laws.Pieces.{
  parameter_body, NoToken, parameter_body-NoToken, match_parameter-body,
}

-- A parameter that reads back: no token of the format in it, and no quote in its key.
abbrev pub IsPlainParameter : Parameter → Type 0
IsPlainParameter p = NoToken p.key × NoToken p.value × (contains (codes "\"") p.key ≡ false)

-- What follows the text of a parameter's value, up to the rest.
abbrev pub after_body : Text → Text
after_body rest = parameter_end ++ (codes ">" ++ rest)

pub parameter_text-append :
    (p : Parameter) (rest : Text)
    → parameter_text p ++ rest ≡ parameter_start ++ (parameter_body p ++ after_body rest)
parameter_text-append p rest = simp append_assoc

read_body :
    (p : Parameter) (rest : Text)
    → NoToken (parameter_body p)
    → read_until_stop (parameter_end ∷ []) (parameter_body p ++ after_body rest)
      ≡ found (parameter_body p) parameter_end (codes ">" ++ rest)
unfolding contains starts_with stop_here no_clash
read_body p rest clean =
    read_until_stop-found (parameter_end ∷ []) (parameter_body p) 47 (codes "｜DSML｜parameter")
      (codes ">" ++ rest) (is_free-of dsml_token (parameter_end ∷ []) (parameter_body p) refl clean)
      refl refl

abbrev pub part_stops : List Text
part_stops = parameter_start ∷ invoke_end ∷ []

-- after a piece of a call, the next stop at once
read_next :
    (c : ℕ) (s rest : Text)
    → no_clash part_stops (c ∷ s) ≡ true
    → stop_here part_stops (c ∷ (s ++ rest)) ≡ some (c ∷ s)
    → read_until_stop part_stops (codes ">\n" ++ (c ∷ (s ++ rest)))
      ≡ found (codes ">\n") (c ∷ s) rest
unfolding contains starts_with is_free
read_next c s rest clear here =
    read_until_stop-found part_stops (codes ">\n") c s rest refl clear here

read_parameter-body :
    (p : Parameter) (known : List Parameter) (c : ℕ) (s rest : Text)
    → IsPlainParameter p
    → has_key p.key known ≡ false
    → no_clash part_stops (c ∷ s) ≡ true
    → stop_here part_stops (c ∷ (s ++ rest)) ≡ some (c ∷ s)
    → read_parameter (parameter_body p ++ after_body (codes "\n" ++ (c ∷ (s ++ rest)))) known
      ≡ ok (known ++ p ∷ [], found (codes ">\n") (c ∷ s) rest)
unfolding read_parameter add_parameter or_value_error
read_parameter-body p known c s rest plain fresh clear here = rw (
  read_body p (codes "\n" ++ (c ∷ (s ++ rest))) (parameter_body-NoToken p plain.0 plain.1),
  match_parameter-body p plain.2,
  fresh,
  read_next c s rest clear here,
)

-- No parameter has the key of an earlier one, or of one of `known`.
unfoldable pub distinct_keys : List Parameter → List Parameter → Bool
unfolding has_key
distinct_keys known [] = true
distinct_keys known (p ∷ ps) = not (has_key p.key known) && distinct_keys (known ++ p ∷ []) ps

-- the further parameters, each on its line
abbrev pub more_parameters : List Parameter → Text
more_parameters [] = []
more_parameters (p ∷ ps) = codes "\n" ++ (parameter_text p ++ more_parameters ps)

abbrev pub call_end : Text → Text
call_end rest = codes "\n" ++ (invoke_end ++ rest)

more_parameters-append :
    (p : Parameter) (ps : List Parameter) (rest : Text)
    → more_parameters (p ∷ ps) ++ call_end rest
      ≡ codes "\n"
        ++ (parameter_start
            ++ (parameter_body p ++ after_body (more_parameters ps ++ call_end rest)))
more_parameters-append p ps rest = ap (◌++◌ (codes "\n")) (
    append_assoc (parameter_text p) (more_parameters ps) (call_end rest)
    ∙ parameter_text-append p (more_parameters ps ++ call_end rest))

-- One parameter read, the loop goes on with what follows it.
read_parameters-suc :
    (p : Parameter) (known : List Parameter) (b : Text) (c : ℕ) (s rest : Text) (fuel : ℕ)
    → IsPlainParameter p
    → has_key p.key known ≡ false
    → no_clash part_stops (c ∷ s) ≡ true
    → stop_here part_stops (c ∷ (s ++ rest)) ≡ some (c ∷ s)
    → read_parameters
        (suc fuel)
        (found b parameter_start (parameter_body p ++ after_body (codes "\n" ++ (c ∷ (s ++ rest)))))
        known
      ≡ read_parameters fuel (found (codes ">\n") (c ∷ s) rest) (known ++ p ∷ [])
unfolding read_parameters
read_parameters-suc p known b c s rest fuel plain fresh clear here =
    rw (read_parameter-body p known c s rest plain fresh clear here)

pub read_parameters-all :
    (p : Parameter) (ps known : List Parameter) (b rest : Text) (fuel : ℕ)
    → All IsPlainParameter (p ∷ ps)
    → distinct_keys known (p ∷ ps) ≡ true
    → length ps < fuel
    → read_parameters
        (suc fuel)
        (found b parameter_start
          (parameter_body p ++ after_body (more_parameters ps ++ call_end rest)))
        known
      ≡ some (ok (known ++ p ∷ ps, rest))
unfolding distinct_keys no_clash stop_here starts_with read_parameters
read_parameters-all p ps known b rest zero plain fresh enough = absurd (omega arith)
read_parameters-all p [] known b rest (suc fuel) plain fresh enough =
    read_parameters-suc p known b 60 (codes "/｜DSML｜invoke") rest (suc fuel) plain.0 (ground arith)
      refl refl
    ∙ refl
read_parameters-all p (q ∷ qs) known b rest (suc fuel) plain fresh enough =
    ap
      (λ t.
        read_parameters (suc (suc fuel))
          (found b parameter_start (parameter_body p ++ after_body t)) known)
      (more_parameters-append q qs rest)
    ∙ read_parameters-suc p known b 60 (codes "｜DSML｜parameter")
        (parameter_body q ++ after_body (more_parameters qs ++ call_end rest)) (suc fuel) plain.0
        (ground arith) refl refl
    ∙ read_parameters-all q qs (known ++ p ∷ []) (codes ">\n") rest fuel plain.1 (ground arith)
        (omega arith)
    ∙ ap (λ ps. some (ok (ps, rest))) (append_assoc known (p ∷ []) (q ∷ qs))
